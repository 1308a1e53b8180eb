-- ===== src/Multiexec.antt =====
-- gateway/internal/multiexec/engine.go: one input for the shells of many sessions.
-- `sess.ShellStream.Write` is the parameter `write_fails`: whether the write to a session's shell
-- ends in an error; on a stream that was not set it panics. A session is the one that the manager's map holds; the lock makes a broadcast one
-- step. A message's words are left out, its kind and its session's id are kept.
pub mod Delivery
pub mod Async
mod Tests
use multi_terminal.Base.{
  ℕ, Bool, true, false, not, Option, none, some, List, [], ◌∷◌, ◌++◌, map, ◌==◌, if◌then◌else◌,
}
use multi_terminal.Base.Outcome.{Outcome, ret, panic, ◌>>=◌}
use multi_terminal.Session.{Session, Manager, State, is_active, get}

pub data DeliveryError : Type 0 where
  session_not_found session_not_active session_slow write_error : ℕ → DeliveryError

-- What one turn of the loop does: nothing, an error that is appended, or a write to the shell of a
-- session, by a goroutine or by the loop itself.
pub data Turn : Type 0 where
  skip : Turn
  refuse : DeliveryError → Turn
  deliver : Session → Turn

-- The tests that both loops start with, for a session that was found.
unfoldable pub examine : ℕ → Session → Turn
examine target s =
    if not (is_active s.state)
    then refuse (session_not_active target)
    else if s.is_slow
    then refuse (session_slow target)
    else deliver s

unfoldable pub found : ℕ → Option Session → Turn
found target none = refuse (session_not_found target)
found target (some s) = examine target s

-- The start of a turn of both loops.
unfoldable pub turn : Manager → ℕ → ℕ → Turn
turn m source target = if target == source then skip else found target (get m target)

-- What a broadcast returns, with the sessions that it picks, in order: `Broadcast` starts a goroutine for
-- each, and when these write is the scheduler's choice (the child module Async); `BroadcastSync` writes
-- to each itself.
pub record Broadcast : Type 0 where
  pub errors : List DeliveryError
  pub picked : List Session

abbrev pub no_errors : Broadcast
no_errors = record { errors = []; picked = [] }

abbrev pub add_error : DeliveryError → Broadcast → Broadcast
add_error e b = record b { errors = e ∷ b.errors }

abbrev pub add_session : Session → Broadcast → Broadcast
add_session s b = record b { picked = s ∷ b.picked }

-- `Broadcast`: the write is left to a goroutine, which only prints its error.
unfoldable pub after_turn : Turn → Broadcast → Broadcast
after_turn skip rest = rest
after_turn (refuse e) rest = add_error e rest
after_turn (deliver s) rest = add_session s rest

unfoldable pub broadcast : Manager → ℕ → List ℕ → Broadcast
broadcast m source [] = no_errors
broadcast m source (target ∷ targets) =
    after_turn (turn m source target) (broadcast m source targets)

-- `BroadcastSync`
module _ (write_fails : Session → Bool) where
  -- A write to a stream that was not set is a panic.
  unfoldable pub after_turn_sync : ℕ → Turn → Outcome Broadcast → Outcome Broadcast
  after_turn_sync target skip rest = rest
  after_turn_sync target (refuse e) rest = do b ← rest; ret (add_error e b)
  after_turn_sync target (deliver s) rest =
      if not s.has_stream
      then panic
      else if write_fails s
      then (rest >>= λ b. ret (add_session s (add_error (write_error target) b)))
      else (rest >>= λ b. ret (add_session s b))

  unfoldable pub broadcast_sync : Manager → ℕ → List ℕ → Outcome Broadcast
  broadcast_sync m source [] = ret no_errors
  broadcast_sync m source (target ∷ targets) =
      after_turn_sync target (turn m source target) (broadcast_sync m source targets)

-- The ids that a walk of the manager's map collects, in the order of the walk.
abbrev pub collect_ids : (Session → Bool) → List (ℕ × Session) → List ℕ
collect_ids wanted [] = []
collect_ids wanted ((k, s) ∷ entries) =
    let rest = collect_ids wanted entries in if wanted s then s.session_id ∷ rest else rest

unfoldable pub get_active_sessions : Manager → List ℕ
get_active_sessions m = collect_ids (λ s. is_active s.state) m.sessions

unfoldable pub get_slow_sessions : Manager → List ℕ
get_slow_sessions m = collect_ids (λ s. s.is_slow) m.sessions
