-- ===== src/Admission.antt =====
-- `HandleWS` of gateway/internal/server/server.go: who gets a connection.
-- strings.TrimSpace is the parameter `trim`. Whether gorilla's upgrade succeeds, and the session id that
-- fmt.Sscanf reads from the query (`none` where there is none to read) are arguments. A part that was
-- not set up is `none`; the reconnect handler is set up with the manager. A text is searched by
-- characters: those that are looked for are ASCII, so the bytes of no other character hold them.
mod Tests
pub mod Gate
pub mod Address
use Prim.Native.Char.{Char, code}
use Prim.Native.String.{String}
use text.Mathlib.Text.{◌==◌ as str_eq}
use multi_terminal.Base.{
  ℕ, ◌*◌, ◌^◌, ◌==◌, Bool, true, false, not, Option, none, some, if◌then◌else◌,
}
use multi_terminal.Session.{Session, Manager, Reconnected, session, failed, handle_reconnect}
use multi_terminal.Resource.Limiter.{RateLimiter, new_rate_limiter, allow}
use multi_terminal.Resource.Breaker.{CircuitBreaker, new_circuit_breaker, allow_connection}
use multi_terminal.Server.{Hub, new_conn, run_register}

-- The global hub's parts that the handler uses.
pub record Gateway : Type 0 where
  pub limiter : Option RateLimiter
  pub breaker : Option CircuitBreaker
  pub manager : Option Manager
  pub hub : Hub

-- `InitResourceGuard`, a window of a minute and a hundred requests; the goroutine of the breaker only
-- checks the usage from time to time.
unfoldable pub init_resource_guard : Gateway → ℕ → Gateway
init_resource_guard g fd_limit = record g {
  limiter = some (new_rate_limiter (60 * 10 ^ 9) 100);
  breaker = some (new_circuit_breaker fd_limit);
}

unfoldable pub set_session_manager : Gateway → Manager → Gateway
set_session_manager g m = record g { manager = some m }

-- `s[:idx]` for the index of the first `mark`; `none` for the index -1.
unfoldable pub put : Char → Option String → Option String
put c none = none
put c (some s) = some (String.◌∷◌ c s)

unfoldable pub before : ℕ → String → Option String
before mark String.[] = none
before mark (String.◌∷◌ c s) = if code c == mark then some "" else put c (before mark s)

-- The text itself where there is none.
abbrev pub or_whole : String → Option String → String
or_whole s none = s
or_whole s (some front) = front

unfoldable pub cut : ℕ → String → String
cut mark s = or_whole s (before mark s)

-- The parts of the request that `extractIP` reads; a header that is missing is empty.
pub record Request : Type 0 where
  pub forwarded_for : String
  pub real_ip : String
  pub remote_addr : String

unfoldable pub extract_ip : (String → String) → Request → String
extract_ip trim r =
    if not (str_eq r.forwarded_for "")
    then trim (cut b',' r.forwarded_for)
    else if not (str_eq r.real_ip "")
    then r.real_ip
    else cut b':' r.remote_addr

-- How the handler ends: HTTP 429, HTTP 503, an upgrade that failed, a session that was reconnected,
-- or a new connection.
pub data Answer : Type 0 where
  rate_limited unavailable not_upgraded connected : Answer
  reconnected : Session → Answer

-- `!HubGlobal.RateLimiter.Allow(ip)`, and what it does to the limiter.
unfoldable pub over_rate : Option RateLimiter → String → ℕ → Option RateLimiter × Bool
over_rate none ip now = (none, false)
over_rate (some rl) ip now =
    let (after, let_through) = allow rl ip now in (some after, not let_through)

unfoldable pub breaker_refuses : Option CircuitBreaker → ℕ → Bool
breaker_refuses none now = false
breaker_refuses (some cb) now = not (allow_connection cb now)

-- A new connection.
unfoldable pub connect : Gateway → Gateway × Answer
connect g = (record g { hub = run_register g.hub (new_conn 0) }, connected)

-- The end of a reconnection: what the handler of the manager answered.
unfoldable pub resume : Gateway → ℕ → Manager × Reconnected → Gateway × Answer
resume g id (m, session s) =
    (record g { manager = some m; hub = run_register g.hub (new_conn id) }, reconnected s)
resume g id (m, failed e) = connect (record g { manager = some m })

-- The handler on a session id, with the session manager.
unfoldable pub reconnect : Gateway → ℕ → ℕ → Option Manager → Gateway × Answer
reconnect g id now none = connect g
reconnect g id now (some m) = resume g id (handle_reconnect m id now)

-- After the upgrade.
unfoldable pub open_connection : Gateway → Option ℕ → ℕ → Gateway × Answer
open_connection g none now = connect g
open_connection g (some id) now = reconnect g id now g.manager

unfoldable pub handle_ws : Gateway → String → ℕ → Bool → Option ℕ → Gateway × Answer
handle_ws g ip now upgraded wanted =
    let (limiter, over) = over_rate g.limiter ip now in
    let counted : Gateway = record g { limiter = limiter } in
    if over
    then (counted, rate_limited)
    else if breaker_refuses g.breaker now
    then (counted, unavailable)
    else if not upgraded
    then (counted, not_upgraded)
    else open_connection counted wanted now

-- `HandleWS` from the request on.
unfoldable pub handle_request :
    (String → String) → Gateway → Request → ℕ → Bool → Option ℕ → Gateway × Answer
handle_request trim g r now upgraded wanted = handle_ws g (extract_ip trim r) now upgraded wanted
