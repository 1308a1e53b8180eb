-- ===== src/Server.antt =====
-- gateway/internal/server: the hub of server.go and the connections of conn.go.
-- A connection is the channel `Send`, a queue of at most 256 messages that can be closed: a send on a
-- closed channel, and a second close, are run-time panics. The WebSocket itself is gorilla's and left
-- out. `Hub.Run` takes one registration or one departure at a time, so each is a step; the map holds
-- pointers, so what a pump does to its connection is stored back under its id.
pub mod Messages
pub mod Registration
pub mod Pumps
pub mod Service
mod Tests
use multi_terminal.Base.{
  ℕ, ◌+◌, ◌%◌, ◌^◌, Bool, true, false, Option, none, some, List, [], ◌∷◌, ◌++◌, ltb, if◌then◌else◌,
  length,
}
use multi_terminal.Base.Maps.{lookup, store, delete}
use multi_terminal.Base.Slices.{Bytes}
use multi_terminal.Base.Outcome.{Outcome, ret, panic, ◌>>=◌}

pub record Conn : Type 0 where
  pub id : ℕ
  pub queue : List Bytes
  pub closed : Bool

-- The capacity of `Send`.
abbrev pub send_capacity : ℕ
send_capacity = 256

unfoldable pub new_conn : ℕ → Conn
new_conn id = record { id = id; queue = []; closed = false }

-- `close(c.Send)`, the end of both pumps.
unfoldable pub close_send : Conn → Outcome Conn
close_send c = if c.closed then panic else ret (record c { closed = true })

-- `select { case conn.Send <- data: default: }`
unfoldable pub offer : Bytes → Conn → Outcome Conn
offer message c =
    if c.closed
    then panic
    else if ltb (length c.queue) send_capacity
    then ret (record c { queue = c.queue ++ message ∷ [] })
    else ret c

pub record Hub : Type 0 where
  pub id_gen : ℕ
  pub conns : List (ℕ × Conn)

unfoldable pub new_hub : Hub
new_hub = record { id_gen = 0; conns = [] }

-- `atomic.AddUint32(&h.IDGen, 1)`
unfoldable pub next_id : Hub → ℕ
next_id h = (h.id_gen + 1) % 2 ^ 32

-- `Run` on a connection of `Register`.
unfoldable pub run_register : Hub → Conn → Hub
run_register h c =
    let id = next_id h in record { id_gen = id; conns = store id (record c { id = id }) h.conns }

-- `Run` on a connection of `Unregister`, which is the one that the map holds.
unfoldable pub run_unregister : Hub → Conn → Outcome Hub
run_unregister h c = do closed ← close_send c; ret (record h { conns = delete c.id h.conns })

-- The walk of `Broadcast`.
unfoldable pub offer_all : Bytes → List (ℕ × Conn) → Outcome (List (ℕ × Conn))
offer_all message [] = ret []
offer_all message ((id, c) ∷ conns) = do
  offered ← offer message c
  rest ← offer_all message conns
  ret ((id, offered) ∷ rest)

unfoldable pub hub_broadcast : Hub → Bytes → Outcome Hub
hub_broadcast h message = do conns ← offer_all message h.conns; ret (record h { conns = conns })

-- `ReadPump` and `WritePump` of a registered connection return.
unfoldable pub pump_ends : Hub → ℕ → Conn → Outcome Hub
pump_ends h id c = do closed ← close_send c; ret (record h { conns = store id closed h.conns })
