-- ===== src/Server/Tests.antt =====
-- The theorems on internal/server at a hub with one connection.
use multi_terminal.Base.{◌≡◌, refl, true, false, none, some, [], ◌∷◌, arith}
use multi_terminal.Base.Maps.{lookup}
use multi_terminal.Server.{
  Conn, send_capacity, new_conn, close_send, Hub, next_id, run_register, offer_all, hub_broadcast,
  pump_ends,
}
use multi_terminal.Server.Registration.{IsHub, run_register-IsHub}
use multi_terminal.Base.Steps.{at, run}
use multi_terminal.Server.Pumps.{
  Pumps, ended, writing, message_read, broadcast, read_failed, sent, received, write_done, start,
  step,
}
use multi_terminal.Server.Pumps.Invariant.{IsSound, pumps_stream}

abbrev one_message : Conn
one_message = record { id = 1; queue = (65 ∷ []) ∷ []; closed = false }

abbrev one_conn : Hub
one_conn = record { id_gen = 1; conns = (1, one_message) ∷ [] }

one_conn-IsHub : IsHub one_conn
one_conn-IsHub = record {
  distinct = (tt, tt);
  given = (omega arith, tt);
  short = (omega arith, tt);
}

run_register-IsHub_example :
    (lookup (next_id one_conn) one_conn.conns ≡ none)
    × (lookup (next_id one_conn) (run_register one_conn (new_conn 7)).conns
        ≡ some (record (new_conn 7) { id = next_id one_conn }))
    × IsHub (run_register one_conn (new_conn 7))
run_register-IsHub_example =
    run_register-IsHub one_conn (new_conn 7) one_conn-IsHub (unfold new_conn in omega arith)
      (omega arith)

-- A client sent "A", which is echoed; a broadcast of "B" waits, and the client leaves.
abbrev left_behind : Pumps
left_behind = record {
  conn = record { id = 0; queue = (66 ∷ []) ∷ []; closed = true };
  reader = ended;
  writer = writing (65 ∷ []);
  accepted = (65 ∷ []) ∷ (66 ∷ []) ∷ [];
  written = [];
}

left_behind_reached :
    run
      (step (λ m. m))
      (start 0)
      (message_read (65 ∷ []) ∷ sent ∷ received ∷ broadcast (66 ∷ []) ∷ read_failed ∷ [])
    ≡ at left_behind
unfolding run step start multi_terminal.Server.Pumps.on_message multi_terminal.Server.Pumps.on_sent
    multi_terminal.Server.Pumps.on_received multi_terminal.Server.Pumps.enqueue
    multi_terminal.Server.Pumps.receive_from multi_terminal.Server.Pumps.on_broadcast
    multi_terminal.Server.Pumps.on_read_failed multi_terminal.Server.Pumps.reader_returns new_conn
    close_send
left_behind_reached = refl

pumps_stream_example : IsSound left_behind
pumps_stream_example =
    pumps_stream (λ m. m) 0
      (message_read (65 ∷ []) ∷ sent ∷ received ∷ broadcast (66 ∷ []) ∷ read_failed ∷ [])
      left_behind left_behind_reached

abbrev drained : Pumps
drained = record left_behind {
  conn = record left_behind.conn { queue = [] };
  writer = writing (66 ∷ []);
  written = (65 ∷ []) ∷ [];
}

drained_reached : run (step (λ m. m)) left_behind (write_done ∷ received ∷ []) ≡ at drained
unfolding run step multi_terminal.Server.Pumps.on_write_done multi_terminal.Server.Pumps.on_received
    multi_terminal.Server.Pumps.receive_from
drained_reached = refl
