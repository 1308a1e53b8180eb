-- ===== src/Session/Sweep/Tests.antt =====
-- The theorems on `cleanup` among other goroutines, at a manager with one detached session.
use multi_terminal.Base.{ℕ, ◌≡◌, refl, ◌+◌, true, false, some, List, [], ◌∷◌, arith}
use multi_terminal.Base.Steps.{at, run}
use multi_terminal.Session.{
  active, detached, expired, is_active, Session, prompt_unknown, default_ttl, can_reconnect,
  Manager, get,
}
use multi_terminal.Session.Sweep.{
  between, saw_stale, Sweep, Event, visits, loads, passes, reads_clock, deletes, reconnects, step,
}
use multi_terminal.Session.Sweep.Orderly.{orderly_step}
use multi_terminal.Session.Sweep.Race.{sweep_spares_active}

abbrev away : Session
away = record {
  session_id = 7;
  user_id = "u";
  host_id = "h";
  cols = 80;
  rows = 24;
  state = detached;
  last_active_at = 1000;
  write_buffer_size = 0;
  is_slow = false;
  prompt_state = prompt_unknown;
  has_stream = true;
}

abbrev one_away : Manager
one_away = record { sessions = (7, away) ∷ []; ttl = default_ttl }

-- With the default limits, which are the same: behind the load the client comes back in the last
-- nanosecond in which it may, the clock goes on, and `cleanup` deletes an active session.
abbrev back_again : Manager
back_again = record {
  sessions = (7, record away { state = active; last_active_at = 600000001000 }) ∷ [];
  ttl = default_ttl;
}

abbrev emptied : Manager
emptied = record { sessions = []; ttl = default_ttl }

run-back_again :
    run step
      (record { manager = one_away; clock = 600000001000; visit = between; left = false })
      (visits 7 ∷ loads 0 ∷ reconnects 7 ∷ passes 1 ∷ reads_clock ∷ [])
    ≡ at (record { manager = back_again; clock = 600000001001; visit = saw_stale 7; left = false })
unfolding run step get multi_terminal.Session.Sweep.on_visit multi_terminal.Session.Sweep.on_load
    multi_terminal.Session.Sweep.on_clock multi_terminal.Session.Sweep.last_active
    multi_terminal.Session.handle_reconnect multi_terminal.Session.attach
    multi_terminal.Session.attached multi_terminal.Session.put_back multi_terminal.Base.Maps.lookup
    multi_terminal.Base.Maps.store
run-back_again = refl

step-back_again :
    step
      (record { manager = back_again; clock = 600000001001; visit = saw_stale 7; left = false })
      deletes
    ≡ at (record { manager = emptied; clock = 600000001001; visit = between; left = false })
unfolding step multi_terminal.Session.Sweep.on_delete multi_terminal.Session.unregister
    multi_terminal.Base.Maps.delete
step-back_again = refl

-- A manager that waits a microsecond more. The state is read eleven minutes after the session was last
-- active, its client comes back too late behind the load, and the clock is read a little later.
abbrev patient_one : Manager
patient_one = record { sessions = (7, away) ∷ []; ttl = default_ttl + 1000 }

abbrev expired_one : Manager
expired_one = record {
  sessions = (7, record away { state = expired }) ∷ [];
  ttl = default_ttl + 1000;
}

abbrev visit_events : List Event
visit_events = visits 7 ∷ passes 5 ∷ loads 0 ∷ reconnects 7 ∷ passes 5 ∷ reads_clock ∷ []

abbrev found_stale : Sweep
found_stale = record {
  manager = expired_one;
  clock = 660000001010;
  visit = saw_stale 7;
  left = false;
}

run-found_stale :
    run
      (orderly_step 1000)
      (record { manager = patient_one; clock = 660000001000; visit = between; left = false })
      visit_events
    ≡ at found_stale
unfolding run orderly_step step get multi_terminal.Session.Sweep.on_visit
    multi_terminal.Session.Sweep.on_load multi_terminal.Session.Sweep.on_clock
    multi_terminal.Session.Sweep.last_active multi_terminal.Session.handle_reconnect
    multi_terminal.Session.attach multi_terminal.Session.attached multi_terminal.Session.put_back
    multi_terminal.Base.Maps.lookup multi_terminal.Base.Maps.store
run-found_stale = refl

sweep_spares_active_example :
    (is_active expired ≡ false)
    × (can_reconnect (record away { state = expired }) 660000001010 ≡ false)
sweep_spares_active_example =
    sweep_spares_active 1000 patient_one 660000001000 visit_events found_stale 7
      (record away { state = expired }) (omega arith) run-found_stale refl
      (unfold get multi_terminal.Base.Maps.lookup in refl)
