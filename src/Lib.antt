-- ===== src/Lib.antt =====
-- A model of the gateway (gateway/), the server that carries many terminals over one connection.
--
-- The parts and their files. A session (internal/session) is one shell of a user on a host;
-- `Session` has its record, the four states, detaching and attaching, the manager's map and the
-- reconnection handler, with the calls that change the map as a step relation
-- (`Session.Lifecycle`). context_checker.go there asks a shell what runs in it (`Probe`). A
-- shell's output goes into a ring buffer (internal/router/buffer.go, `Ring`). On every tick the
-- router (internal/router/router.go, `Router`) walks the buffers, sets each session's slow flag
-- by the two water marks, reads what waits into slices of the pool (pkg/buffer/pool.go, `Pool`)
-- and broadcasts a frame (pkg/codec/frame.go, `Codec`). What a user types passes the rules of
-- `Risk` (internal/risk/engine.go and handleInput of internal/server/server.go) and can go to
-- many shells (internal/multiexec/engine.go, `Multiexec`); it is logged by internal/audit
-- (`Audit`), and what the shells answer is compared by internal/diff (`Diff`). internal/ssh opens
-- the shells (`Ssh`). The hub of internal/server holds the connections that the frames go to
-- (`Server`); a connection is moved by its two pumps (internal/server/conn.go, `Server.Pumps`),
-- HandleWS decides who gets one (`Admission`), and graceful.go hands the server over to a new
-- process (`Graceful`). `Resource` has internal/resource: the rate limiter (`Limiter`), the
-- circuit breaker (`Breaker`) and the checks before the start (`Guard`). `Main` is
-- cmd/server/main.go, which puts the parts together (`Main.Boot`) with the configuration
-- (internal/config, `Config`) and the collectors of internal/metrics (`Metrics`). `Ansi` has the
-- patterns that `Probe` and `Diff` share, and `Base` what all share: lists, slices, association
-- lists, the integers, computations that may panic, and systems that take steps.
--
-- How the code is rendered. A method is a function of its receiver's state with the Go name in
-- lower case; a struct is a record; a Go error is a value in the result, and a run-time panic is
-- the outcome `panic`, which `Codec`, `Router`, `Server`, `Graceful`, `Main` and the synchronous
-- broadcast of `Multiexec` carry, `panicked` in `Probe`, or the `crashed` of a step. A mutex
-- makes each method one step. Where goroutines share a channel, a socket or a slice, an
-- interleaving is a list of events, of which each says who acts and what the outside answers: the
-- pumps of a connection (`Server.Pumps`) and all connections at once (`Server.Service`), the life
-- of a router (`Router.Loop`) and of a breaker (`Resource.Breaker.Life`), the goroutines of a
-- broadcast to the shells (`Multiexec.Async`), the parties at the handoff socket
-- (`Graceful.Socket`), a cleanup among reconnections (`Session.Sweep`) and the loop of cleanups
-- (`Session.Cleaning`). Most of them are runs of `Base.Steps`. The current time and the answers
-- of the operating system are arguments. A sync.Map is an association list, and pointers into it
-- are stored back under their key. The shapes of integers are written out where they matter:
-- `uint8` and `uint16` wrap; the ring's two int64 counters are unbounded (2^63 bytes would have
-- to go through); the breaker's counter is a bit pattern of 32 bits. The regular expressions of
-- `Ansi` and `Audit` are written out as matchers; those of `Risk` come from its configuration and
-- are, like encoding/json, crypto, strings.TrimSpace and the writes to a shell, parameters. Only
-- the loop of `Probe` takes fuel, a round each: its readings come at later and later times, so
-- the nanoseconds of the timeout bound the rounds. All other loops run over lists or count down.
--
-- A router sees of the hub only the list of messages that it broadcasts, and whether a broadcast panics,
-- which the hub's connections decide at that moment.
--
-- The specifications. The wire format is a grammar (`Codec.Grammar`) against which the loops over
-- offsets are compared; the ring buffer is a queue of bytes (`Ring.Contents`, `Ring.Refine`) and
-- a history of calls is a byte stream (`Ring.Flow`); a connection is a stream of messages
-- (`Server.Pumps.Invariant`), and a server its connections, each alone
-- (`Server.Service.Independence`); what shells are given is a bag, which forgets the order of the
-- scheduler (`Multiexec.Async.Schedules`); the limiter is compared with a log of what it let
-- through (`Resource.Limiter.Limit`); a tick with what each session's own buffer asks for
-- (`Router.Tick`); the output of a terminal is a list of plain bytes and escape sequences
-- (`Ansi.Strip`), and a secret in a command an assignment (`Audit.Filter`).
--
-- Not modelled: the WebSockets, SSH connections and HTTP server themselves, which belong to
-- libraries; of internal/audit the compression; of internal/diff the Unicode pattern of progress
-- bars; of cmd/server the shutdown behind the loop, and of the goroutine that listens all but the
-- error that ends it; the ticker loop of the SSH manager; the browser's code.
pub mod Base
pub mod Codec
pub mod Ring
pub mod Session
pub mod Pool
pub mod Router
pub mod Resource
pub mod Risk
pub mod Multiexec
pub mod Server
pub mod Admission
pub mod Graceful
pub mod Ansi
pub mod Probe
pub mod Diff
pub mod Ssh
pub mod Audit
pub mod Config
pub mod Metrics
pub mod Main
