-- ===== src/Server/Service.antt =====
-- gateway/internal/server: all connections of the server at once (server.go and conn.go).
-- An event is a registration, which `Hub.Run` takes and after which `HandleWS` starts the two pumps, or
-- what one connection's goroutines, or a broadcast at that connection, do at one moment; so the sends of
-- a `Broadcast` are events of their own, between which others may come. A panic in any goroutine ends
-- the program. `reply` is what the handler of a connection answers to a message. A connection whose
-- pumps have returned stays in the map, since nothing sends to `Unregister`.
pub mod Alone
pub mod Independence
pub mod Departure
pub mod Broadcast
pub mod Running
mod Tests
use multi_terminal.Base.{ℕ, ◌+◌, ◌%◌, ◌^◌, Option, none, some, List, []}
use multi_terminal.Base.Maps.{lookup, store}
use multi_terminal.Base.Slices.{Bytes}
use multi_terminal.Base.Steps.{Ran, stuck, crashed, at}
use multi_terminal.Server.Pumps.{Pumps, start}
use multi_terminal.Server.Pumps

pub record Service : Type 0 where
  pub id_gen : ℕ
  pub clients : List (ℕ × Pumps)

pub data Event : Type 0 where
  registered : Event
  acts : ℕ → Pumps.Event → Event

unfoldable pub opened : Service
opened = record { id_gen = 0; clients = [] }

unfoldable pub register : Service → Service
register s =
    let id = (s.id_gen + 1) % 2 ^ 32 in
    record { id_gen = id; clients = store id (start id) s.clients }

unfoldable pub after_act : Service → ℕ → Ran Pumps → Ran Service
after_act s id stuck = stuck
after_act s id crashed = crashed
after_act s id (at p) = at (record s { clients = store id p s.clients })

module _ (reply : ℕ → Bytes → Bytes) where
  unfoldable pub act : Service → ℕ → Pumps.Event → Option Pumps → Ran Service
  act s id e none = stuck
  act s id e (some p) = after_act s id (Pumps.step (reply id) p e)

  unfoldable pub step : Service → Event → Ran Service
  step s registered = at (register s)
  step s (acts id e) = act s id e (lookup id s.clients)
