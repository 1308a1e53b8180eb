-- ===== src/Server/Pumps/Replies.antt =====
-- What becomes of the messages of a client (conn.go, with the handlers of server.go).
use multi_terminal.Base.{
  ℕ, ◌≡◌, refl, sym, ap, subst, ◌∙◌, Bool, true, false, List, [], ◌∷◌, ◌++◌, append_assoc,
  append-nil, map, ltb, if◌then◌else◌, length, All,
}
use multi_terminal.Base.Slices.{Bytes}
use multi_terminal.Base.Outcome.{Outcome, ret, panic}
use multi_terminal.Server.{Conn, send_capacity, close_send}
use multi_terminal.Base.Steps.{Ran, stuck, crashed, at, bind, run}
use multi_terminal.Server.Pumps.{
  Reader, reading, sending, ended, Writer, selecting, writing, returned, Pumps, Event, message_read,
  broadcast, read_failed, sent, received, write_done, write_failed, ping_done, ping_failed, start,
  enqueue, reader_returns, writer_returns, on_read_failed, on_sent, receive_from, on_received,
  on_write_done, on_write_failed, on_ping, on_message, step,
}
use multi_terminal.Server.Pumps.Invariant.{in_flight, pumps_stream}

-- The reply with which the handler waits.
abbrev pub waiting : Reader → List Bytes
waiting reading = []
waiting (sending m) = m ∷ []
waiting ended = []

-- What the client sent, in order.
abbrev pub reads : List Event → List Bytes
reads [] = []
reads (message_read m ∷ es) = m ∷ reads es
reads (_ ∷ es) = reads es

abbrev pub is_broadcast : Event → Bool
is_broadcast (broadcast m) = true
is_broadcast _ = false

abbrev pub offered : Pumps → List Bytes
offered s = s.accepted ++ waiting s.reader

abbrev Extends : List Bytes → Pumps → Ran Pumps → Type 0
Extends new s stuck = Unit {0}
Extends new s crashed = Unit {0}
Extends new s (at t) = offered t ≡ offered s ++ new

reader_returns-Extends :
    (s : Pumps) (c : Outcome Conn) → s.reader ≡ reading → Extends [] s (reader_returns s c)
unfolding reader_returns
reader_returns-Extends s panic e = tt
reader_returns-Extends s (ret c) e =
    ap (λ r. s.accepted ++ waiting r) (sym e) ∙ sym (append-nil (offered s))

writer_returns-Extends :
    (s : Pumps) (lost : List Bytes) (c : Outcome Conn) → Extends [] s (writer_returns s lost c)
unfolding writer_returns
writer_returns-Extends s lost panic = tt
writer_returns-Extends s lost (ret c) = sym (append-nil (offered s))

message-Extends :
    (reply : Bytes → Bytes) (s : Pumps) (m : Bytes) (r : Reader)
    → s.reader ≡ r
    → Extends (reply m ∷ []) s (on_message reply s m r)
unfolding on_message
message-Extends reply s m reading e =
    ap (λ l. l ++ reply m ∷ [])
      (sym (append-nil s.accepted) ∙ ap (λ r. s.accepted ++ waiting r) (sym e))
message-Extends reply s m (sending _) e = tt
message-Extends reply s m ended e = tt

read_failed-Extends : (s : Pumps) (r : Reader) → s.reader ≡ r → Extends [] s (on_read_failed s r)
unfolding on_read_failed
read_failed-Extends s reading e = reader_returns-Extends s (close_send s.conn) e
read_failed-Extends s (sending _) e = tt
read_failed-Extends s ended e = tt

sent-Extends : (s : Pumps) (r : Reader) → s.reader ≡ r → Extends [] s (on_sent s r)
unfolding on_sent enqueue
sent-Extends s reading e = tt
sent-Extends s ended e = tt
sent-Extends s (sending m) e = by_tests s.conn.closed (ltb (length s.conn.queue) send_capacity)
  where
    by_tests :
        (down room : Bool)
        → Extends [] s (if down then crashed else if room then at (enqueue s m reading) else stuck)
    by_tests true _ = tt
    by_tests false false = tt
    by_tests false true = ap (λ r. (s.accepted ++ waiting r) ++ []) (sym e)

received-Extends : (s : Pumps) (w : Writer) → Extends [] s (on_received s w)
unfolding on_received receive_from
received-Extends s (writing _) = tt
received-Extends s (returned _) = tt
received-Extends s selecting = by_queue s.conn.queue s.conn.closed
  where
    by_queue :
        (q : List Bytes) (down : Bool)
        → Extends [] s (elim q as (λ _. Ran Pumps) [
          | [] ↦ if down then writer_returns s [] (close_send s.conn) else stuck
          | m ∷ queue ↦ at (record s { conn = record s.conn { queue = queue }; writer = writing m })
        ])
    by_queue [] true = writer_returns-Extends s [] (close_send s.conn)
    by_queue [] false = tt
    by_queue (m ∷ q) down = sym (append-nil (offered s))

write_done-Extends : (s : Pumps) (w : Writer) → Extends [] s (on_write_done s w)
unfolding on_write_done
write_done-Extends s selecting = tt
write_done-Extends s (returned _) = tt
write_done-Extends s (writing m) = sym (append-nil (offered s))

write_failed-Extends : (s : Pumps) (w : Writer) → Extends [] s (on_write_failed s w)
unfolding on_write_failed
write_failed-Extends s selecting = tt
write_failed-Extends s (returned _) = tt
write_failed-Extends s (writing m) = writer_returns-Extends s (m ∷ []) (close_send s.conn)

ping-Extends : (s : Pumps) (fine : Bool) (w : Writer) → Extends [] s (on_ping s fine w)
unfolding on_ping
ping-Extends s true selecting = sym (append-nil (offered s))
ping-Extends s false selecting = writer_returns-Extends s [] (close_send s.conn)
ping-Extends s true (writing _) = tt
ping-Extends s false (writing _) = tt
ping-Extends s true (returned _) = tt
ping-Extends s false (returned _) = tt

step-Extends :
    (reply : Bytes → Bytes) (s : Pumps) (e : Event)
    → is_broadcast e ≡ false
    → Extends (map reply (reads (e ∷ []))) s (step reply s e)
unfolding step
step-Extends reply s (message_read m) h = message-Extends reply s m s.reader refl
step-Extends reply s (broadcast m) h = absurd (cc h)
step-Extends reply s read_failed h = read_failed-Extends s s.reader refl
step-Extends reply s sent h = sent-Extends s s.reader refl
step-Extends reply s received h = received-Extends s s.writer
step-Extends reply s write_done h = write_done-Extends s s.writer
step-Extends reply s write_failed h = write_failed-Extends s s.writer
step-Extends reply s ping_done h = ping-Extends s true s.writer
step-Extends reply s ping_failed h = ping-Extends s false s.writer

Extends-bind :
    (new more : List Bytes) (s : Pumps) (r : Ran Pumps) (f : Pumps → Ran Pumps)
    → Extends new s r
    → ((t : Pumps) → Extends more t (f t))
    → Extends (new ++ more) s (bind r f)
Extends-bind new more s stuck f h rest = tt
Extends-bind new more s crashed f h rest = tt
Extends-bind new more s (at t) f h rest = further (f t) (rest t)
  where
    further : (r : Ran Pumps) → Extends more t r → Extends (new ++ more) s r
    further stuck w = tt
    further crashed w = tt
    further (at u) w = w ∙ ap (λ l. l ++ more) h ∙ append_assoc (offered s) new more

map-reads :
    (reply : Bytes → Bytes) (e : Event) (es : List Event)
    → map reply (reads (e ∷ [])) ++ map reply (reads es) ≡ map reply (reads (e ∷ es))
map-reads reply (message_read m) es = refl
map-reads reply (broadcast m) es = refl
map-reads reply read_failed es = refl
map-reads reply sent es = refl
map-reads reply received es = refl
map-reads reply write_done es = refl
map-reads reply write_failed es = refl
map-reads reply ping_done es = refl
map-reads reply ping_failed es = refl

run-Extends :
    (reply : Bytes → Bytes) (s : Pumps) (es : List Event)
    → All (λ e. is_broadcast e ≡ false) es
    → Extends (map reply (reads es)) s (run (step reply) s es)
unfolding run
run-Extends reply s [] h = sym (append-nil (offered s))
run-Extends reply s (e ∷ es) h =
    subst (λ l. Extends l s (bind (step reply s e) (λ t. run (step reply) t es)))
      (map-reads reply e es)
      (Extends-bind (map reply (reads (e ∷ []))) (map reply (reads es)) s (step reply s e)
        (λ t. run (step reply) t es) (step-Extends reply s e h.0) (λ t. run-Extends reply t es h.1))

-- In every interleaving of a new connection's pumps that has no broadcast and has not crashed: the
-- handler's replies to the messages of the client, each once and in the order in which they came, are
-- what the socket took, then what the writer holds or lost, then what is queued, and last the reply with
-- which the handler waits for room.
pub replies_stream :
    (reply : Bytes → Bytes) (id : ℕ) (es : List Event) (s : Pumps)
    → All (λ e. is_broadcast e ≡ false) es
    → run (step reply) (start id) es ≡ at s
    → (s.written ++ (in_flight s.writer ++ s.conn.queue)) ++ waiting s.reader ≡ map reply (reads es)
replies_stream reply id es s quiet h =
    ap (λ l. l ++ waiting s.reader) (sym (pumps_stream reply id es s h).stream)
    ∙ unfold start in
      subst (Extends (map reply (reads es)) (start id)) h (run-Extends reply (start id) es quiet)
