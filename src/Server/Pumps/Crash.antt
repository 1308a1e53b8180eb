-- ===== src/Server/Pumps/Crash.antt =====
-- What becomes of the process when a client leaves (conn.go).
use multi_terminal.Base.{
  ℕ, ◌+◌, ◌*◌, ◌≤◌, ◌<◌, ◌≡◌, ◌≢◌, refl, sym, ap, subst, ◌∙◌, Bool, true, false, ◌&&◌, ◌||◌, List,
  [], ◌∷◌, if◌then◌else◌, length, arith,
}
use multi_terminal.Base.Slices.{Bytes}
use multi_terminal.Server.{close_send}
use multi_terminal.Base.Steps.{Ran, stuck, crashed, at, bind, run}
use multi_terminal.Server.Pumps.{
  ended, Writer, selecting, writing, returned, Pumps, Event, message_read, broadcast, read_failed,
  sent, received, write_done, write_failed, ping_done, ping_failed, writer_returns, on_read_failed,
  on_sent, receive_from, on_received, on_write_done, on_write_failed, on_ping, on_broadcast,
  on_message, step,
}
use multi_terminal.Server.Pumps.Invariant.{is_ended, is_returned, IsSound, Sound, step-Sound}

-- How many events other than pings there are at most until the crash.
abbrev pub left_over : Writer → ℕ
left_over selecting = 1
left_over (writing m) = 2
left_over (returned lost) = 1

abbrev pub todo : Pumps → ℕ
todo s = left_over s.writer + 2 * length s.conn.queue

-- The events other than pings that were answered.
abbrev pub busy : List Event → ℕ
busy [] = 0
busy (ping_done ∷ es) = busy es
busy (message_read m ∷ es) = 1 + busy es
busy (broadcast m ∷ es) = 1 + busy es
busy (read_failed ∷ es) = 1 + busy es
busy (sent ∷ es) = 1 + busy es
busy (received ∷ es) = 1 + busy es
busy (write_done ∷ es) = 1 + busy es
busy (write_failed ∷ es) = 1 + busy es
busy (ping_failed ∷ es) = 1 + busy es

-- The client has left and nothing has crashed yet.
record IsLeft (s : Pumps) : Type 0 where
  sound : IsSound s
  left : s.reader ≡ ended

closed_left : (s : Pumps) → IsLeft s → s.conn.closed ≡ true
closed_left s v = v.sound.shut ∙ ap (λ r. is_ended r || is_returned s.writer) v.left

-- A writer that returns now closes a closed channel.
returns_crash :
    (s : Pumps) (lost : List Bytes) → IsLeft s → writer_returns s lost (close_send s.conn) ≡ crashed
unfolding writer_returns close_send
returns_crash s lost v = rw (closed_left s v) refl

abbrev NearerBy : ℕ → Pumps → Ran Pumps → Type 0
NearerBy n s stuck = Unit {0}
NearerBy n s crashed = Unit {0}
NearerBy n s (at t) = (t.reader ≡ ended) × (n + todo t ≤ todo s)

abbrev Nearer : Pumps → Ran Pumps → Type 0
Nearer s r = NearerBy 1 s r

received-Nearer : (s : Pumps) (w : Writer) → s.writer ≡ w → IsLeft s → Nearer s (on_received s w)
unfolding on_received receive_from
received-Nearer s (writing m) e v = tt
received-Nearer s (returned lost) e v = tt
received-Nearer s selecting e v = by_queue s.conn.queue refl
  where
    empty :
        (down : Bool) → Nearer s (if down then writer_returns s [] (close_send s.conn) else stuck)
    empty true = rw (returns_crash s [] v) tt
    empty false = tt

    by_queue : (q : List Bytes) → s.conn.queue ≡ q → Nearer s (receive_from s q)
    by_queue [] none_waits = empty s.conn.closed
    by_queue (m ∷ q) waits = (v.left, omega (arith, ap length waits, ap left_over e))

message-Nearer :
    (reply : Bytes → Bytes) (s : Pumps) (m : Bytes)
    → s.reader ≡ ended
    → Nearer s (on_message reply s m s.reader)
unfolding on_message
message-Nearer reply s m e = subst (λ r. Nearer s (on_message reply s m r)) (sym e) tt

read_failed-Nearer : (s : Pumps) → s.reader ≡ ended → Nearer s (on_read_failed s s.reader)
unfolding on_read_failed
read_failed-Nearer s e = subst (λ r. Nearer s (on_read_failed s r)) (sym e) tt

sent-Nearer : (s : Pumps) → s.reader ≡ ended → Nearer s (on_sent s s.reader)
unfolding on_sent
sent-Nearer s e = subst (λ r. Nearer s (on_sent s r)) (sym e) tt

broadcast-Nearer : (s : Pumps) (m : Bytes) → IsLeft s → Nearer s (on_broadcast s m)
unfolding on_broadcast
broadcast-Nearer s m v = rw (closed_left s v) tt

write_done-Nearer :
    (s : Pumps) (w : Writer) → s.writer ≡ w → IsLeft s → Nearer s (on_write_done s w)
unfolding on_write_done
write_done-Nearer s selecting e v = tt
write_done-Nearer s (returned lost) e v = tt
write_done-Nearer s (writing m) e v = (v.left, omega (arith, ap left_over e))

write_failed-Nearer : (s : Pumps) (w : Writer) → IsLeft s → Nearer s (on_write_failed s w)
unfolding on_write_failed
write_failed-Nearer s selecting v = tt
write_failed-Nearer s (returned lost) v = tt
write_failed-Nearer s (writing m) v = rw (returns_crash s (m ∷ []) v) tt

ping_failed-Nearer : (s : Pumps) (w : Writer) → IsLeft s → Nearer s (on_ping s false w)
unfolding on_ping
ping_failed-Nearer s selecting v = rw (returns_crash s [] v) tt
ping_failed-Nearer s (writing m) v = tt
ping_failed-Nearer s (returned lost) v = tt

ping_done-Nearer : (s : Pumps) (w : Writer) → IsLeft s → NearerBy 0 s (on_ping s true w)
unfolding on_ping
ping_done-Nearer s selecting v = (v.left, omega arith)
ping_done-Nearer s (writing m) v = tt
ping_done-Nearer s (returned lost) v = tt

step-Nearer :
    (reply : Bytes → Bytes) (s : Pumps) (e : Event)
    → IsLeft s
    → NearerBy (busy (e ∷ [])) s (step reply s e)
unfolding step
step-Nearer reply s (message_read m) v = message-Nearer reply s m v.left
step-Nearer reply s (broadcast m) v = broadcast-Nearer s m v
step-Nearer reply s read_failed v = read_failed-Nearer s v.left
step-Nearer reply s sent v = sent-Nearer s v.left
step-Nearer reply s received v = received-Nearer s s.writer refl v
step-Nearer reply s write_done v = write_done-Nearer s s.writer refl v
step-Nearer reply s write_failed v = write_failed-Nearer s s.writer v
step-Nearer reply s ping_done v = ping_done-Nearer s s.writer v
step-Nearer reply s ping_failed v = ping_failed-Nearer s s.writer v

busy-cons : (e : Event) (es : List Event) → busy (e ∷ es) ≡ busy (e ∷ []) + busy es
busy-cons ping_done es = omega arith
busy-cons (message_read m) es = omega arith
busy-cons (broadcast m) es = omega arith
busy-cons read_failed es = omega arith
busy-cons sent es = omega arith
busy-cons received es = omega arith
busy-cons write_done es = omega arith
busy-cons write_failed es = omega arith
busy-cons ping_failed es = omega arith

-- After `n` events that count the end is nearer by `n`.
abbrev Within : Pumps → ℕ → Ran Pumps → Type 0
Within s n stuck = Unit {0}
Within s n crashed = Unit {0}
Within s n (at t) = IsLeft t × (n + todo t ≤ todo s)

Within-bind :
    (s : Pumps) (k n : ℕ) (r : Ran Pumps) (f : Pumps → Ran Pumps)
    → Sound r
    → NearerBy k s r
    → ((t : Pumps) → IsLeft t → Within t n (f t))
    → Within s (k + n) (bind r f)
Within-bind s k n stuck f v h rest = tt
Within-bind s k n crashed f v h rest = tt
Within-bind s k n (at t) f v h rest = further (f t) (rest t (record { sound = v; left = h.0 }))
  where
    further : (r : Ran Pumps) → Within t n r → Within s (k + n) r
    further stuck w = tt
    further crashed w = tt
    further (at u) w = (w.0, omega (arith, w.1, h.1))

run-Within :
    (reply : Bytes → Bytes) (s : Pumps) (es : List Event)
    → IsLeft s
    → Within s (busy es) (run (step reply) s es)
unfolding run
run-Within reply s [] v = (v, omega arith)
run-Within reply s (e ∷ es) v =
    subst (λ n. Within s n (bind (step reply s e) (λ t. run (step reply) t es)))
      (sym (busy-cons e es))
      (Within-bind s (busy (e ∷ [])) (busy es) (step reply s e) (λ t. run (step reply) t es)
        (step-Sound reply s e v.sound) (step-Nearer reply s e v) (λ t w. run-Within reply t es w))

-- What the writer does next.
abbrev pub next_event : Writer → Event
next_event selecting = received
next_event (writing m) = write_done
next_event (returned lost) = received

receive-ne-stuck : (s : Pumps) (q : List Bytes) → IsLeft s → receive_from s q ≢ stuck
unfolding receive_from
receive-ne-stuck s (m ∷ q) v = λ h. cc
receive-ne-stuck s [] v =
    subst (λ b. (if b then writer_returns s [] (close_send s.conn) else stuck) ≢ stuck)
      (sym (closed_left s v)) (subst (λ r. r ≢ stuck) (sym (returns_crash s [] v)) (λ h. cc))

next-ne-stuck :
    (reply : Bytes → Bytes) (s : Pumps) (w : Writer)
    → s.writer ≡ w
    → IsLeft s
    → step reply s (next_event w) ≢ stuck
unfolding step on_write_done on_received
next-ne-stuck reply s (writing m) e v = subst (λ w. on_write_done s w ≢ stuck) (sym e) (λ h. cc)
next-ne-stuck reply s (returned lost) e v = absurd (both v.sound.one_left)
  where
    both : (is_ended s.reader && is_returned s.writer) ≡ false → ⊥
    both h = cc (h, ap is_ended v.left, ap is_returned e)
next-ne-stuck reply s selecting e v =
    subst (λ w. on_received s w ≢ stuck) (sym e) (receive-ne-stuck s s.conn.queue v)

-- Once the client has left, every interleaving of the pumps and of broadcasts ends in a run-time
-- panic: from a state in which what holds of every connection does, and the reader has returned, at most
-- twice as many events as messages are queued, and one more, happen without one, answered pings not
-- counted, and the writer is never without a next event that is no ping.
pub crash_inevitable :
    (reply : Bytes → Bytes) (s t : Pumps) (es : List Event)
    → IsSound s
    → s.reader ≡ ended
    → run (step reply) s es ≡ at t
    → (busy es < todo s) × (step reply t (next_event t.writer) ≢ stuck)
crash_inevitable reply s t es v left h =
    let w : Within s (busy es) (at t) =
      subst (Within s (busy es)) h (run-Within reply s es (record { sound = v; left = left })) in
    (omega (arith, w.1, todo_positive t), next-ne-stuck reply t t.writer refl w.0)
  where
    todo_positive : (u : Pumps) → 0 < todo u
    todo_positive u = by_writer u.writer
      where
        by_writer : (w : Writer) → 0 < left_over w + 2 * length u.conn.queue
        by_writer selecting = omega arith
        by_writer (writing m) = omega arith
        by_writer (returned lost) = omega arith
