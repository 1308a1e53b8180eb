-- ===== src/Multiexec/Tests.antt =====
-- The theorems on multiexec/engine.go at a manager with one active session.
use multi_terminal.Base.{ℕ, ◌≡◌, refl, Bool, true, false, List, some, [], ◌∷◌, map}
use multi_terminal.Base.Steps.{at, run}
use multi_terminal.Session.{active, Session, prompt_unknown, default_ttl, Manager}
use multi_terminal.Multiexec.{broadcast}
use multi_terminal.Multiexec.Async.{
  Memory, World, Call, Event, called, scheduled, overwritten, idle, step,
}
use multi_terminal.Multiexec.Async.Schedules.{
  bag, calls, intended, handed_over, overwrite_reaches_all,
}
use multi_terminal.Multiexec.Delivery.{Picked, broadcast-Picked}

abbrev peer : Session
peer = record {
  session_id = 7;
  user_id = "u";
  host_id = "h";
  cols = 80;
  rows = 24;
  state = active;
  last_active_at = 1000;
  write_buffer_size = 0;
  is_slow = false;
  prompt_state = prompt_unknown;
  has_stream = true;
}

abbrev one_peer : Manager
one_peer = record { sessions = (7, peer) ∷ []; ttl = default_ttl }

abbrev always_fails : Session → Bool
always_fails s = true

broadcast-Picked_example :
    Picked one_peer 1 (1 ∷ 7 ∷ 8 ∷ []) (broadcast one_peer 1 (1 ∷ 7 ∷ 8 ∷ [])).picked
broadcast-Picked_example = broadcast-Picked one_peer 1 (1 ∷ 7 ∷ 8 ∷ [])

abbrev command_memory : Memory
command_memory b = 108 ∷ 115 ∷ []

abbrev to_peer : Call
to_peer = record { manager = one_peer; source = 1; targets = 1 ∷ 7 ∷ 8 ∷ []; buffer = 3 }

abbrev written_twice : World
written_twice = record {
  memory = command_memory;
  pending = [];
  handed = (7, 108 ∷ 115 ∷ []) ∷ (7, 108 ∷ 115 ∷ []) ∷ [];
}

-- The second call's goroutine writes first.
abbrev two_calls : List Event
two_calls = called to_peer ∷ called to_peer ∷ scheduled 1 ∷ scheduled 0 ∷ []

run-two_calls : run step (idle command_memory) two_calls ≡ at written_twice
unfolding run step multi_terminal.Multiexec.Async.started multi_terminal.Multiexec.Async.take_out
    multi_terminal.Multiexec.Async.after_write multi_terminal.Multiexec.Async.delivery
    multi_terminal.Multiexec.Async.goroutine broadcast multi_terminal.Multiexec.turn
    multi_terminal.Multiexec.examine multi_terminal.Session.get multi_terminal.Base.Maps.lookup
    multi_terminal.Multiexec.after_turn multi_terminal.Multiexec.found
run-two_calls = refl

handed_over_example : bag written_twice.handed ≡ bag (intended command_memory (calls two_calls))
handed_over_example =
    handed_over command_memory two_calls written_twice (refl, (refl, (refl, (refl, tt))))
      run-two_calls refl

-- The caller uses its slice again before the goroutine runs.
abbrev replaced : World
replaced = record {
  memory = multi_terminal.Multiexec.Async.overwrite command_memory 3 (114 ∷ 109 ∷ []);
  pending = [];
  handed = (7, 114 ∷ 109 ∷ []) ∷ [];
}

run-replaced :
    run step
      (idle command_memory)
      (called to_peer ∷ overwritten 3 (114 ∷ 109 ∷ []) ∷ map scheduled (0 ∷ []))
    ≡ at replaced
unfolding run step multi_terminal.Multiexec.Async.started multi_terminal.Multiexec.Async.take_out
    multi_terminal.Multiexec.Async.after_write multi_terminal.Multiexec.Async.delivery
    multi_terminal.Multiexec.Async.goroutine broadcast multi_terminal.Multiexec.turn
    multi_terminal.Multiexec.examine multi_terminal.Session.get multi_terminal.Base.Maps.lookup
    multi_terminal.Multiexec.after_turn multi_terminal.Multiexec.found
    multi_terminal.Multiexec.Async.overwrite
run-replaced = refl

overwrite_reaches_all_example :
    bag replaced.handed
    ≡ bag (map (λ s. (s.session_id, 114 ∷ 109 ∷ [])) (broadcast one_peer 1 (1 ∷ 7 ∷ 8 ∷ [])).picked)
overwrite_reaches_all_example =
    overwrite_reaches_all command_memory to_peer (114 ∷ 109 ∷ []) (0 ∷ []) replaced run-replaced
      refl
