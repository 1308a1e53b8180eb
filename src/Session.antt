-- ===== src/Session.antt =====
-- gateway/internal/session: session.go, state.go, reconnect.go and manager.go.
-- A time is the count of nanoseconds of Go's monotonic clock, and `time.Now()` is an argument of each
-- call. `SSHClient`, which nothing uses, is left out of the record, and of the stream there
-- is whether it was set: `has_stream` is false where `ShellStream` is nil, and a call on it panics. The
-- mutex makes each method one step. Ids, columns and rows are only moved and compared.
pub mod Reconnect
pub mod Registry
pub mod Lifecycle
pub mod Sweep
pub mod Cleaning
mod Tests
use Prim.Native.String.{String}
use multi_terminal.Base.{
  ℕ, ◌+◌, ◌*◌, ◌^◌, Bool, true, false, ◌&&◌, not, Option, none, some, List, [], ◌∷◌, ltb, leb,
  if◌then◌else◌, keep,
}
use multi_terminal.Base.Maps.{lookup, store, delete}

pub data State : Type 0 where
  active detached expired closed : State

-- The value of `State(n)` that is none of the constants has no model: nothing in the package makes
-- one.
unfoldable pub state_string : State → String
state_string active = "active"
state_string detached = "detached"
state_string expired = "expired"
state_string closed = "closed"

abbrev pub is_detached : State → Bool
is_detached detached = true
is_detached _ = false

abbrev pub is_active : State → Bool
is_active active = true
is_active _ = false

pub data PromptState : Type 0 where
  prompt_shell prompt_tui prompt_unknown : PromptState

pub record Session : Type 0 where
  pub session_id : ℕ
  pub user_id : String
  pub host_id : String
  pub cols : ℕ
  pub rows : ℕ
  pub state : State
  pub last_active_at : ℕ
  pub write_buffer_size : ℕ
  pub is_slow : Bool
  pub prompt_state : PromptState
  pub has_stream : Bool

-- `10 * time.Minute`
abbrev pub default_ttl : ℕ
default_ttl = 10 * 60 * 10 ^ 9

abbrev pub default_reconnect_ttl : ℕ
default_reconnect_ttl = 10 * 60 * 10 ^ 9

-- `time.Since(at) > ttl`
abbrev pub since_exceeds : ℕ → ℕ → ℕ → Bool
since_exceeds at ttl now = ltb (at + ttl) now

pub new_session : ℕ → String → String → ℕ → Session
new_session id user host now = record {
  session_id = id;
  user_id = user;
  host_id = host;
  cols = 80;
  rows = 24;
  state = active;
  last_active_at = now;
  write_buffer_size = 0;
  is_slow = false;
  prompt_state = prompt_unknown;
  has_stream = false;
}

unfoldable pub set_state : Session → State → Session
set_state s st = record s { state = st }

unfoldable pub get_state : Session → State
get_state s = s.state

unfoldable pub set_prompt_state : Session → PromptState → Session
set_prompt_state s ps = record s { prompt_state = ps }

unfoldable pub get_prompt_state : Session → PromptState
get_prompt_state s = s.prompt_state

unfoldable pub set_slow : Session → Bool → Session
set_slow s slow = record s { is_slow = slow }

unfoldable pub get_slow : Session → Bool
get_slow s = s.is_slow

-- reconnect.go

pub record ReconnectInfo : Type 0 where
  pub session_id : ℕ
  pub user_id : String
  pub host_id : String
  pub cols : ℕ
  pub rows : ℕ
  pub offset : ℕ

unfoldable pub detach : Session → ℕ → Session
detach s now = record s { state = detached; last_active_at = now }

unfoldable pub can_reconnect : Session → ℕ → Bool
can_reconnect s now =
    if not (is_detached s.state)
    then false
    else not (since_exceeds s.last_active_at default_reconnect_ttl now)

unfoldable pub is_expired : Session → ℕ → Bool
is_expired s now =
    if not (is_detached s.state)
    then false
    else since_exceeds s.last_active_at default_reconnect_ttl now

unfoldable pub get_reconnect_info : Session → ReconnectInfo
get_reconnect_info s = record {
  session_id = s.session_id;
  user_id = s.user_id;
  host_id = s.host_id;
  cols = s.cols;
  rows = s.rows;
  offset = 0;
}

-- The errors of reconnect.go, which carry the session's id.
pub data ReconnectError : Type 0 where
  not_found not_detached has_expired : ℕ → ReconnectError

unfoldable pub attach : Session → ℕ → Session × Option ReconnectError
attach s now =
    if not (is_detached s.state)
    then (s, some (not_detached s.session_id))
    else if since_exceeds s.last_active_at default_reconnect_ttl now
    then (record s { state = expired }, some (has_expired s.session_id))
    else (record s { state = active; last_active_at = now }, none)

-- manager.go. The map holds pointers, so a method on a session that was looked up changes the entry.

pub record Manager : Type 0 where
  pub sessions : List (ℕ × Session)
  pub ttl : ℕ

unfoldable pub new_manager : Manager
new_manager = record { sessions = []; ttl = default_ttl }

-- `cleanup` deletes this entry.
abbrev pub is_stale : ℕ → ℕ → ℕ × Session → Bool
is_stale ttl now (k, s) = is_detached s.state && since_exceeds s.last_active_at ttl now

unfoldable pub cleanup : Manager → ℕ → Manager
cleanup m now = record m { sessions = keep (λ e. not (is_stale m.ttl now e)) m.sessions }

unfoldable pub register : Manager → Session → Manager
register m s = record m { sessions = store s.session_id s m.sessions }

unfoldable pub unregister : Manager → ℕ → Manager
unregister m id = record m { sessions = delete id m.sessions }

unfoldable pub get : Manager → ℕ → Option Session
get m id = lookup id m.sessions

-- What a method does to the session that `get` found.
unfoldable pub put_back : Manager → ℕ → Session → Manager
put_back m id s = record m { sessions = store id s m.sessions }

-- `HandleReconnect`: the session or the error.
pub data Reconnected : Type 0 where
  session : Session → Reconnected
  failed : ReconnectError → Reconnected

-- The end of the handler, on what `Attach` did to the session.
unfoldable pub attached : Manager → ℕ → Session × Option ReconnectError → Manager × Reconnected
attached m id (s, none) = (put_back m id s, session s)
attached m id (s, some e) = (put_back m id s, failed e)

unfoldable pub handle_reconnect : Manager → ℕ → ℕ → Manager × Reconnected
handle_reconnect m id now = elim (get m id) [
  | none ↦ (m, failed (not_found id))
  | some s ↦ attached m id (attach s now)
]
