-- ===== src/Main.antt =====
-- gateway/cmd/server/main.go: how the program runs.
-- `config.Load` gives no error (`Config`). What the HTTP server does with requests while the program waits
-- is in `Admission` and `Server.Service`, so that of all that changes the hub only the signals are here.
-- Of the goroutine that listens there is its end: `ListenAndServe` returns an error other than
-- http.ErrServerClosed, and log.Fatalf exits the process. The happenings are the signals that come and
-- that error, in order; nothing closes the channel, so after the last one the loop goes on waiting.
pub mod Serve
pub mod Echo
pub mod Boot
mod Tests
use Prim.Native.String.{String}
use multi_terminal.Base.{ℕ, Bool, true, false, Option, none, some, List, [], ◌∷◌}
use multi_terminal.Base.Slices.{Bytes}
use multi_terminal.Base.Outcome.{Outcome, ret, panic, ◌>>=◌}
use multi_terminal.Resource.Guard.{GuardError, pre_flight}
use multi_terminal.Server.{Hub, new_hub}
use multi_terminal.Graceful.{
  GracefulState, GracefulManager, new_graceful_manager, Handled, handle_usr2_signal,
}
use multi_terminal.Risk.{Engine, handle_input}
use multi_terminal.Admission.{Gateway}

-- Whether the write of the state file and the listen succeed.
pub record System : Type 0 where
  pub writes : Bool
  pub listens : Bool

-- SIGUSR2, with what its handler meets; SIGINT or SIGTERM; the error of the goroutine that listens.
pub data Happening : Type 0 where
  usr2 : System → Happening
  terminate listen_failed : Happening

-- `cancelled` is the state of the context.
pub record Program : Type 0 where
  pub hub : Hub
  pub manager : GracefulManager
  pub cancelled : Bool

-- How `run` ends: the error before the start, the program that waits, or the exit with status 1.
pub data Ran : Type 0 where
  not_started : GuardError → Ran
  waiting : Program → Ran
  exited : Ran

module _ (marshal : GracefulState → Option Bytes) where
  -- The loop over the signals: the state in which it waits for the next one. The `break` leaves the
  -- switch.
  unfoldable pub serve : Program → List Happening → Outcome Ran
  serve p [] = ret (waiting p)
  serve p (terminate ∷ later) = serve (record p { cancelled = true }) later
  serve p (listen_failed ∷ later) = ret exited
  serve p (usr2 sys ∷ later) = do
    done ← handle_usr2_signal marshal p.manager p.hub sys.writes sys.listens
    serve (record p { hub = done.hub; manager = done.manager }) later

abbrev pub started : Hub → Program
started h = record {
  hub = h;
  manager = new_graceful_manager "/var/run/gateway.sock" "1.0.0";
  cancelled = false;
}

unfoldable pub run_checked :
    (GracefulState → Option Bytes) → Option GuardError → Hub → List Happening → Outcome Ran
run_checked marshal (some e) h later = ret (not_started e)
run_checked marshal none h later = serve marshal (started h) later

unfoldable pub run :
    (GracefulState → Option Bytes) → Option ℕ → Option ℕ → Hub → List Happening → Outcome Ran
run marshal rlim stat h later = run_checked marshal (pre_flight rlim stat) h later

-- What `HandleWS` finds: nothing calls InitResourceGuard or SetSessionManager.
abbrev pub served : Hub → Gateway
served h = record { limiter = none; breaker = none; manager = none; hub = h }

-- What the handler of a new connection sends back; `text` and `bytes` are the conversions of Go.
unfoldable pub on_input : (Bytes → String) → (String → Bytes) → Engine → Bytes → Bytes
on_input text bytes e message = bytes (handle_input e (text message)).1
