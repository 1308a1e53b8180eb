-- ===== src/Session/Sweep.antt =====
-- gateway/internal/session/manager.go: `cleanup` among the other goroutines.
-- The callback of `Range` takes the lock of a session for its state only, then loads the time of its
-- last activity, then reads the clock in time.Since, then deletes the key: each is an event, and others
-- come in between. `clock` is Go's monotonic clock. The other events are the calls of `Register` and
-- `Unregister`, and of `SetState` and of reconnect.go, which lock the session as a whole. The callback
-- holds the session that it visits, also when the map has lost or replaced it (`left`); what it then
-- loads is the event's argument, since the holders of such a session may do anything with it.
pub mod Visits
pub mod Orderly
pub mod Race
mod Tests
use multi_terminal.Base.{ℕ, ◌+◌, ◌==◌, ◌||◌, Bool, true, false, Option, none, some, if◌then◌else◌}
use multi_terminal.Base.Steps.{Ran, stuck, at}
use multi_terminal.Session.{
  is_detached, since_exceeds, State, Session, Manager, register, unregister, get, put_back,
  set_state, detach, handle_reconnect,
}

-- Where the callback stands, with the id that it visits: at no session; behind `GetState`, with the time
-- of that read; behind the load of `LastActiveAt`, with what it loaded; behind time.Since.
pub data Visit : Type 0 where
  between : Visit
  saw_detached : ℕ → ℕ → Visit
  loaded : ℕ → ℕ → ℕ → Visit
  saw_stale : ℕ → Visit

-- `left` is whether the session that is visited is no longer the map's.
pub record Sweep : Type 0 where
  pub manager : Manager
  pub clock : ℕ
  pub visit : Visit
  pub left : Bool

pub data Event : Type 0 where
  visits loads reconnects detaches passes unregisters : ℕ → Event
  sets_state : ℕ → State → Event
  reads_clock deletes : Event
  registers : Session → Event

abbrev pub is_visited : Visit → ℕ → Bool
is_visited between id = false
is_visited (saw_detached j t) id = j == id
is_visited (loaded j t l) id = j == id
is_visited (saw_stale j) id = j == id

-- `s.GetState() == StateDetached`
unfoldable pub on_visit : Sweep → ℕ → Visit → Option Session → Ran Sweep
on_visit u id between (some s) =
    if is_detached s.state
    then at (record u { visit = saw_detached id u.clock; left = false })
    else at u
on_visit u id between none = stuck
on_visit u id (saw_detached j t) o = stuck
on_visit u id (loaded j t l) o = stuck
on_visit u id (saw_stale j) o = stuck

-- `s.LastActiveAt`
unfoldable pub last_active : Sweep → ℕ → Option Session → ℕ
last_active u other none = other
last_active u other (some s) = if u.left then other else s.last_active_at

unfoldable pub on_load : Sweep → ℕ → Visit → Ran Sweep
on_load u other between = stuck
on_load u other (loaded id t l) = stuck
on_load u other (saw_stale id) = stuck
on_load u other (saw_detached id t) =
    at (record u { visit = loaded id t (last_active u other (get u.manager id)) })

-- `time.Since(...) > m.ttl`
unfoldable pub on_clock : Sweep → Visit → Ran Sweep
on_clock u between = stuck
on_clock u (saw_detached id t) = stuck
on_clock u (saw_stale id) = stuck
on_clock u (loaded id t l) =
    if since_exceeds l u.manager.ttl u.clock
    then at (record u { visit = saw_stale id })
    else at (record u { visit = between })

-- `m.sessions.Delete(key)`
unfoldable pub on_delete : Sweep → Visit → Ran Sweep
on_delete u between = stuck
on_delete u (saw_detached id t) = stuck
on_delete u (loaded id t l) = stuck
on_delete u (saw_stale id) = at (record u { manager = unregister u.manager id; visit = between })

-- A method on the session under an id.
unfoldable pub on_session : Sweep → ℕ → (Session → Session) → Option Session → Ran Sweep
on_session u id f none = stuck
on_session u id f (some s) = at (record u { manager = put_back u.manager id (f s) })

unfoldable pub step : Sweep → Event → Ran Sweep
step u (visits id) = on_visit u id u.visit (get u.manager id)
step u (loads other) = on_load u other u.visit
step u reads_clock = on_clock u u.visit
step u deletes = on_delete u u.visit
step u (reconnects id) = at (record u { manager = (handle_reconnect u.manager id u.clock).0 })
step u (detaches id) = on_session u id (λ s. detach s u.clock) (get u.manager id)
step u (sets_state id st) = on_session u id (λ s. set_state s st) (get u.manager id)
step u (passes n) = at (record u { clock = u.clock + n })
step u (registers s) =
    at (record u {
      manager = register u.manager s;
      left = u.left || is_visited u.visit s.session_id;
    })
step u (unregisters id) =
    at (record u { manager = unregister u.manager id; left = u.left || is_visited u.visit id })
