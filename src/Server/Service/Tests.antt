-- ===== src/Server/Service/Tests.antt =====
-- The theorems on all connections at once, with two clients of which one leaves.
use multi_terminal.Base.{
  ℕ, ◌+◌, ◌<◌, ◌≡◌, ◌≢◌, refl, true, false, List, [], ◌∷◌, length, arith, All, ◌⊎◌,
}
use multi_terminal.Base.Maps.{lookup}
use multi_terminal.Base.Slices.{Bytes}
use multi_terminal.Base.Steps.{stuck, crashed, at, run}
use multi_terminal.Server.Messages.{IsOpen, all_with}
use multi_terminal.Server.Pumps.{
  Pumps, ended, selecting, sending, writing, message_read, read_failed, sent, received, write_done,
  start,
}
use multi_terminal.Server.Pumps
use multi_terminal.Server.Pumps.Crash.{todo}
use multi_terminal.Server.Service.{Service, Event, registered, acts, opened, step}
use multi_terminal.Server.Service.Alone.{own_events}
use multi_terminal.Server.Service.Independence.{clients_independent, service_survives}
use multi_terminal.Server.Service.Departure.{departure_kills}
use multi_terminal.Server.Service.Broadcast.{conns_of, hub_of, walk}
use multi_terminal.Server.Service.Running.{broadcast_reaches}

abbrev echo : ℕ → Bytes → Bytes
echo id m = m

-- The first client's "A" is being written when it leaves.
abbrev before : List Event
before =
    registered
    ∷ registered
    ∷ acts 1 (message_read (65 ∷ []))
    ∷ acts 2 (message_read (66 ∷ []))
    ∷ acts 1 sent
    ∷ acts 1 received
    ∷ acts 1 read_failed
    ∷ []

abbrev first_left : Pumps
first_left = record {
  conn = record { id = 1; queue = []; closed = true };
  reader = ended;
  writer = writing (65 ∷ []);
  accepted = (65 ∷ []) ∷ [];
  written = [];
}

abbrev second_sends : Pumps
second_sends = record {
  conn = record { id = 2; queue = []; closed = false };
  reader = sending (66 ∷ []);
  writer = selecting;
  accepted = [];
  written = [];
}

abbrev two_clients : Service
two_clients = record { id_gen = 2; clients = (1, first_left) ∷ (2, second_sends) ∷ [] }

run-two_clients : run (step echo) opened before ≡ at two_clients
unfolding run step opened start lookup multi_terminal.Server.Service.register
    multi_terminal.Server.Service.act multi_terminal.Server.Service.after_act Pumps.step
    Pumps.on_message Pumps.on_sent Pumps.on_received Pumps.receive_from Pumps.enqueue
    Pumps.on_read_failed Pumps.reader_returns multi_terminal.Base.Maps.store
    multi_terminal.Server.new_conn multi_terminal.Server.close_send
run-two_clients = refl

clients_independent_example :
    run (Pumps.step (echo 1)) (start 1) (own_events 1 before) ≡ at first_left
clients_independent_example =
    clients_independent echo before two_clients 1 first_left (omega arith) run-two_clients
      (unfold lookup in refl)

abbrev all_well : List Event
all_well = registered ∷ acts 1 (message_read (65 ∷ [])) ∷ acts 1 sent ∷ []

service_survives_example : run (step echo) opened all_well ≢ crashed
service_survives_example = service_survives echo all_well (omega arith) (refl, (refl, (refl, tt)))

-- The last message is written, and the second client goes on.
abbrev after : List Event
after = acts 2 sent ∷ acts 1 write_done ∷ []

abbrev soon_dead : Service
soon_dead = record {
  id_gen = 2;
  clients =
      (1, record first_left { writer = selecting; written = (65 ∷ []) ∷ [] })
      ∷ (
        2,
        record second_sends {
          conn = record second_sends.conn { queue = (66 ∷ []) ∷ [] };
          reader = Pumps.reading;
          accepted = (66 ∷ []) ∷ [];
        },
      )
      ∷ [];
}

run-soon_dead : run (step echo) two_clients after ≡ at soon_dead
unfolding run step lookup multi_terminal.Server.Service.act multi_terminal.Server.Service.after_act
    Pumps.step Pumps.on_sent Pumps.enqueue Pumps.on_write_done multi_terminal.Base.Maps.store
run-soon_dead = refl

departure_kills_example : (1 < todo first_left) × (step echo soon_dead (acts 1 received) ≢ stuck)
departure_kills_example =
    departure_kills echo before after two_clients soon_dead 1 first_left
      (record first_left { writer = selecting; written = (65 ∷ []) ∷ [] }) (omega arith)
      run-two_clients (unfold lookup in refl) refl run-soon_dead (unfold lookup in refl)

broadcast_reaches_example :
    (All IsOpen (conns_of two_clients.clients)
      × (t : Service) × (run (step echo) two_clients (walk (67 ∷ []) two_clients.clients) ≡ at t)
      × (hub_of t ≡ record (hub_of two_clients) {
        conns = all_with (67 ∷ []) (conns_of two_clients.clients);
      }))
    ⊎ ((¬ (All IsOpen (conns_of two_clients.clients)))
        × (run (step echo) two_clients (walk (67 ∷ []) two_clients.clients) ≡ crashed))
broadcast_reaches_example = broadcast_reaches echo before two_clients (67 ∷ []) run-two_clients
