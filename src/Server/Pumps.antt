-- ===== src/Server/Pumps.antt =====
-- gateway/internal/server/conn.go: `ReadPump` and `WritePump`, two goroutines on one channel, with the
-- handlers of `HandleWS` and the sends of `Hub.Broadcast`.
-- An event is what one goroutine does at one moment; `run` of a list of them is an interleaving. `reply` is what
-- the handler answers to a message. The WebSocket is gorilla's: whether a read or a write fails is part
-- of the event. Deadlines and the ticker only decide when an event happens. `accepted` and `written`
-- are logs: what went into the channel, and what the socket took.
pub mod Invariant
pub mod Healthy
pub mod Crash
pub mod Replies
use multi_terminal.Base.{ℕ, Bool, true, false, List, [], ◌∷◌, ◌++◌, ltb, if◌then◌else◌, length}
use multi_terminal.Base.Slices.{Bytes}
use multi_terminal.Base.Outcome.{Outcome, ret, panic}
use multi_terminal.Base.Steps.{Ran, stuck, crashed, at}
use multi_terminal.Server.{Conn, send_capacity, new_conn, close_send}

-- `sending` waits at the handler's `conn.Send <- output`.
pub data Reader : Type 0 where
  reading : Reader
  sending : Bytes → Reader
  ended : Reader

-- `writing` has a message that it received; `returned` keeps the one that it did not write.
pub data Writer : Type 0 where
  selecting : Writer
  writing : Bytes → Writer
  returned : List Bytes → Writer

pub record Pumps : Type 0 where
  pub conn : Conn
  pub reader : Reader
  pub writer : Writer
  pub accepted : List Bytes
  pub written : List Bytes

pub data Event : Type 0 where
  message_read broadcast : Bytes → Event
  read_failed sent received write_done write_failed ping_done ping_failed : Event

unfoldable pub start : ℕ → Pumps
start id = record {
  conn = new_conn id;
  reader = reading;
  writer = selecting;
  accepted = [];
  written = [];
}

-- The channel takes a message.
unfoldable pub enqueue : Pumps → Bytes → Reader → Pumps
enqueue s m r = record s {
  conn = record s.conn { queue = s.conn.queue ++ m ∷ [] };
  reader = r;
  accepted = s.accepted ++ m ∷ [];
}

-- The deferred calls, which close the channel.
unfoldable pub reader_returns : Pumps → Outcome Conn → Ran Pumps
reader_returns s panic = crashed
reader_returns s (ret c) = at (record s { conn = c; reader = ended })

unfoldable pub writer_returns : Pumps → List Bytes → Outcome Conn → Ran Pumps
writer_returns s lost panic = crashed
writer_returns s lost (ret c) = at (record s { conn = c; writer = returned lost })

unfoldable pub on_read_failed : Pumps → Reader → Ran Pumps
on_read_failed s reading = reader_returns s (close_send s.conn)
on_read_failed s (sending _) = stuck
on_read_failed s ended = stuck

-- The handler's send: it waits while the channel is full.
unfoldable pub on_sent : Pumps → Reader → Ran Pumps
on_sent s (sending m) =
    if s.conn.closed
    then crashed
    else if ltb (length s.conn.queue) send_capacity
    then at (enqueue s m reading)
    else stuck
on_sent s reading = stuck
on_sent s ended = stuck

-- The receive of `WritePump`: the oldest message, or the end of a closed and empty channel.
unfoldable pub receive_from : Pumps → List Bytes → Ran Pumps
receive_from s (m ∷ queue) =
    at (record s { conn = record s.conn { queue = queue }; writer = writing m })
receive_from s [] = if s.conn.closed then writer_returns s [] (close_send s.conn) else stuck

unfoldable pub on_received : Pumps → Writer → Ran Pumps
on_received s selecting = receive_from s s.conn.queue
on_received s (writing _) = stuck
on_received s (returned _) = stuck

unfoldable pub on_write_done : Pumps → Writer → Ran Pumps
on_write_done s (writing m) = at (record s { writer = selecting; written = s.written ++ m ∷ [] })
on_write_done s selecting = stuck
on_write_done s (returned _) = stuck

unfoldable pub on_write_failed : Pumps → Writer → Ran Pumps
on_write_failed s (writing m) = writer_returns s (m ∷ []) (close_send s.conn)
on_write_failed s selecting = stuck
on_write_failed s (returned _) = stuck

unfoldable pub on_ping : Pumps → Bool → Writer → Ran Pumps
on_ping s true selecting = at s
on_ping s false selecting = writer_returns s [] (close_send s.conn)
on_ping s _ (writing _) = stuck
on_ping s _ (returned _) = stuck

-- `select { case conn.Send <- data: default: }` of a broadcast
unfoldable pub on_broadcast : Pumps → Bytes → Ran Pumps
on_broadcast s m =
    if s.conn.closed
    then crashed
    else if ltb (length s.conn.queue) send_capacity
    then at (enqueue s m s.reader)
    else at s

module _ (reply : Bytes → Bytes) where
  unfoldable pub on_message : Pumps → Bytes → Reader → Ran Pumps
  on_message s m reading = at (record s { reader = sending (reply m) })
  on_message s m (sending _) = stuck
  on_message s m ended = stuck

  unfoldable pub step : Pumps → Event → Ran Pumps
  step s (message_read m) = on_message s m s.reader
  step s (broadcast m) = on_broadcast s m
  step s read_failed = on_read_failed s s.reader
  step s sent = on_sent s s.reader
  step s received = on_received s s.writer
  step s write_done = on_write_done s s.writer
  step s write_failed = on_write_failed s s.writer
  step s ping_done = on_ping s true s.writer
  step s ping_failed = on_ping s false s.writer
