-- ===== src/Graceful/Socket/Tests.antt =====
-- The theorems on the handoff socket, with two new processes and one call.
use multi_terminal.Base.{◌≡◌, ◌≤◌, ◌+◌, refl, true, some, none, List, [], ◌∷◌, length}
use multi_terminal.Base.Slices.{codes}
use multi_terminal.Graceful.{GracefulManager}
use multi_terminal.Graceful.Socket.{
  accepted, returned, Handoff, Event, connected, sender_accepts, wait_called, waiter_accepts,
  wait_returns, listening, step, run,
}
use multi_terminal.Graceful.Socket.Calls.{successes}
use multi_terminal.Graceful.Socket.Shares.{connections, connections_shared}

abbrev waits : GracefulManager
waits = record {
  state = none;
  listener = some (record { listening = true });
  socket_path = "/tmp/s";
  version = "1";
}

abbrev two_come : List Event
two_come =
    wait_called ∷ connected ∷ connected ∷ sender_accepts ∷ waiter_accepts 0 ∷ wait_returns 0 ∷ []

abbrev handed : Handoff
handed = record {
  manager = waits;
  backlog = 0;
  sender = accepted;
  sent = codes "null" ∷ [];
  calls = record { goroutine = accepted; done = none; wait = returned none } ∷ [];
}

run-handed : run (λ st. some (codes "null")) (listening waits) two_come ≡ some handed
unfolding run step listening multi_terminal.Graceful.Socket.connect
    multi_terminal.Graceful.Socket.change multi_terminal.Graceful.Socket.accept
    multi_terminal.Graceful.Socket.receive multi_terminal.Graceful.Socket.new_call
    multi_terminal.Graceful.Socket.send multi_terminal.Graceful.Socket.state_json
run-handed = refl

connections_shared_example : length handed.sent + successes handed.calls ≤ connections two_come
connections_shared_example =
    connections_shared (λ st. some (codes "null")) waits (record { listening = true }) two_come
      handed refl run-handed
