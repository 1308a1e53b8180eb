-- ===== src/Session/Tests.antt =====
-- The theorems on sessions and their manager, at a manager with one detached session.
use multi_terminal.Base.{
  ℕ, ◌+◌, ◌≤◌, ◌<◌, ◌≡◌, ◌↔◌, refl, true, false, none, some, [], ◌∷◌, if◌then◌else◌, ◌==◌,
}
use multi_terminal.Base.Maps.{lookup}
use multi_terminal.Session.{
  active, detached, expired, Session, prompt_unknown, default_ttl, default_reconnect_ttl,
  can_reconnect, is_expired, attach, Manager, cleanup, get, handle_reconnect, has_expired,
  new_manager, register, put_back, session,
}
use multi_terminal.Session.Lifecycle.{
  detaches, call, Reached, fresh, next, registers, calls, IsManager, Reached-IsManager,
  reconnect_own,
}
use multi_terminal.Session.Registry.{answer_for, entry_after, handle_reconnect_lem}

abbrev away : Session
away = record {
  session_id = 7;
  user_id = "u";
  host_id = "h";
  cols = 80;
  rows = 24;
  state = detached;
  last_active_at = 1000;
  write_buffer_size = 0;
  is_slow = false;
  prompt_state = prompt_unknown;
  has_stream = true;
}

abbrev one_away : Manager
one_away = record { sessions = (7, away) ∷ []; ttl = default_ttl }

-- Eleven minutes after the session was last active.
abbrev too_late : ℕ
too_late = 660000001000

handle_reconnect_lem_example :
    ((handle_reconnect one_away 7 2000).1 ≡ answer_for 7 2000 (get one_away 7))
    × (get (handle_reconnect one_away 7 2000).0 7
        ≡ (if 7 == 7 then entry_after 2000 (get one_away 7) else get one_away 7))
handle_reconnect_lem_example = handle_reconnect_lem one_away 7 2000 7

abbrev here : Session
here = record away { state = active; last_active_at = 0 }

-- Session 7 is registered and detached.
abbrev one_detached : Manager
one_detached = put_back (register new_manager here) 7 (call (detaches 1000) here)

one_detached-Reached : Reached one_detached
unfolding get register new_manager lookup multi_terminal.Base.Maps.store
one_detached-Reached =
    next (next fresh (registers new_manager here))
      (calls (register new_manager here) 7 here (detaches 1000) refl)

Reached-IsManager_example : IsManager one_detached
Reached-IsManager_example = Reached-IsManager one_detached-Reached

back :
    (handle_reconnect one_detached 7 2000).1
    ≡ session (record away { state = active; last_active_at = 2000 })
unfolding get register new_manager lookup multi_terminal.Base.Maps.store put_back
    multi_terminal.Session.detach handle_reconnect attach multi_terminal.Session.attached
back = refl

reconnect_own_example :
    let t : Session = record away { state = active; last_active_at = 2000 } in
    (t.session_id ≡ 7)
    × (t.state ≡ active)
    × (get (handle_reconnect one_detached 7 2000).0 7 ≡ some t)
    × (s : Session) × (get one_detached 7 ≡ some s)
    × (s.state ≡ detached)
reconnect_own_example =
    reconnect_own one_detached 7 2000 (record away { state = active; last_active_at = 2000 })
      one_detached-Reached back
