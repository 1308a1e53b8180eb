-- ===== src/Server/Pumps/Healthy.antt =====
-- A connection whose client stays and whose socket works (conn.go).
use multi_terminal.Base.{
  ℕ, ◌≡◌, ◌≢◌, refl, Bool, true, false, List, [], ◌∷◌, ltb, if◌then◌else◌, length, All,
}
use multi_terminal.Base.Slices.{Bytes}
use multi_terminal.Server.{send_capacity, new_conn}
use multi_terminal.Base.Steps.{Ran, stuck, crashed, at, run, Fine, run-Fine, Fine-ne-crashed}
use multi_terminal.Server.Pumps.{
  Reader, reading, sending, ended, Writer, selecting, writing, returned, Pumps, Event, message_read,
  broadcast, read_failed, sent, received, write_done, write_failed, ping_done, ping_failed, start,
  enqueue, on_sent, receive_from, on_received, on_write_done, on_ping, on_broadcast, on_message,
  step,
}

-- A read, a write or a ping that fails.
abbrev pub is_failure : Event → Bool
is_failure read_failed = true
is_failure write_failed = true
is_failure ping_failed = true
is_failure _ = false

-- The channel is still open.
abbrev StaysOpen : Ran Pumps → Type 0
StaysOpen = Fine (λ t. t.conn.closed ≡ false)

message-StaysOpen :
    (reply : Bytes → Bytes) (s : Pumps) (m : Bytes) (r : Reader)
    → s.conn.closed ≡ false
    → StaysOpen (on_message reply s m r)
unfolding on_message
message-StaysOpen reply s m reading up = up
message-StaysOpen reply s m (sending _) up = tt
message-StaysOpen reply s m ended up = tt

-- A send on the open channel; `full` is what happens when there is no room.
offer-StaysOpen :
    (s : Pumps) (m : Bytes) (r : Reader) (full : Ran Pumps)
    → s.conn.closed ≡ false
    → StaysOpen full
    → StaysOpen (
        if s.conn.closed
        then crashed
        else if ltb (length s.conn.queue) send_capacity
        then at (enqueue s m r)
        else full)
unfolding enqueue
offer-StaysOpen s m r full up rest =
    by_tests s.conn.closed (ltb (length s.conn.queue) send_capacity) up
  where
    by_tests :
        (down room : Bool)
        → down ≡ false
        → StaysOpen (if down then crashed else if room then at (enqueue s m r) else full)
    by_tests true room still = absurd (cc still)
    by_tests false true still = up
    by_tests false false still = rest

sent-StaysOpen : (s : Pumps) (r : Reader) → s.conn.closed ≡ false → StaysOpen (on_sent s r)
unfolding on_sent
sent-StaysOpen s reading up = tt
sent-StaysOpen s ended up = tt
sent-StaysOpen s (sending m) up = offer-StaysOpen s m reading stuck up tt

broadcast-StaysOpen : (s : Pumps) (m : Bytes) → s.conn.closed ≡ false → StaysOpen (on_broadcast s m)
unfolding on_broadcast
broadcast-StaysOpen s m up = offer-StaysOpen s m s.reader (at s) up up

receive-StaysOpen :
    (s : Pumps) (q : List Bytes) → s.conn.closed ≡ false → StaysOpen (receive_from s q)
unfolding receive_from
receive-StaysOpen s [] up = rw up tt
receive-StaysOpen s (m ∷ q) up = up

received-StaysOpen : (s : Pumps) (w : Writer) → s.conn.closed ≡ false → StaysOpen (on_received s w)
unfolding on_received
received-StaysOpen s selecting up = receive-StaysOpen s s.conn.queue up
received-StaysOpen s (writing _) up = tt
received-StaysOpen s (returned _) up = tt

write_done-StaysOpen :
    (s : Pumps) (w : Writer) → s.conn.closed ≡ false → StaysOpen (on_write_done s w)
unfolding on_write_done
write_done-StaysOpen s selecting up = tt
write_done-StaysOpen s (writing m) up = up
write_done-StaysOpen s (returned _) up = tt

ping-StaysOpen : (s : Pumps) (w : Writer) → s.conn.closed ≡ false → StaysOpen (on_ping s true w)
unfolding on_ping
ping-StaysOpen s selecting up = up
ping-StaysOpen s (writing _) up = tt
ping-StaysOpen s (returned _) up = tt

step-StaysOpen :
    (reply : Bytes → Bytes) (s : Pumps) (e : Event)
    → is_failure e ≡ false
    → s.conn.closed ≡ false
    → StaysOpen (step reply s e)
unfolding step
step-StaysOpen reply s (message_read m) h up = message-StaysOpen reply s m s.reader up
step-StaysOpen reply s (broadcast m) h up = broadcast-StaysOpen s m up
step-StaysOpen reply s sent h up = sent-StaysOpen s s.reader up
step-StaysOpen reply s received h up = received-StaysOpen s s.writer up
step-StaysOpen reply s write_done h up = write_done-StaysOpen s s.writer up
step-StaysOpen reply s ping_done h up = ping-StaysOpen s s.writer up
step-StaysOpen reply s read_failed h up = absurd (cc h)
step-StaysOpen reply s write_failed h up = absurd (cc h)
step-StaysOpen reply s ping_failed h up = absurd (cc h)

-- As long as no read, write or ping of a new connection fails, no interleaving of its pumps and of
-- broadcasts panics, whatever is sent, also when the channel is full.
pub healthy_never_crashes :
    (reply : Bytes → Bytes) (id : ℕ) (es : List Event)
    → All (λ e. is_failure e ≡ false) es
    → run (step reply) (start id) es ≢ crashed
unfolding start new_conn
healthy_never_crashes reply id es h =
    Fine-ne-crashed (λ t. t.conn.closed ≡ false) (run (step reply) (start id) es)
      (run-Fine (step reply) (λ t. t.conn.closed ≡ false) (λ e. is_failure e ≡ false) (start id) es
        (step-StaysOpen reply) h refl)
