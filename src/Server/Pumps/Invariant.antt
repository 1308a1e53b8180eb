-- ===== src/Server/Pumps/Invariant.antt =====
-- What holds of a connection in every interleaving of its pumps (conn.go).
use multi_terminal.Base.{
  ℕ, ◌≤◌, ◌≡◌, refl, sym, ap, ◌∙◌, Bool, true, false, ◌&&◌, ◌||◌, List, [], ◌∷◌, ◌++◌, append_assoc,
  ltb, if◌then◌else◌, length, length-append, arith,
}
use multi_terminal.Base.Slices.{Bytes}
use multi_terminal.Base.Outcome.{ret, panic}
use multi_terminal.Server.{send_capacity, new_conn, close_send}
use multi_terminal.Base.Steps.{Ran, stuck, crashed, at, run, Holds, reached, Any, all-Any}
use multi_terminal.Server.Pumps.{
  Reader, reading, sending, ended, Writer, selecting, writing, returned, Pumps, Event, message_read,
  broadcast, read_failed, sent, received, write_done, write_failed, ping_done, ping_failed, start,
  enqueue, reader_returns, writer_returns, on_read_failed, on_sent, receive_from, on_received,
  on_write_done, on_write_failed, on_ping, on_broadcast, on_message, step,
}

abbrev pub is_ended : Reader → Bool
is_ended ended = true
is_ended reading = false
is_ended (sending _) = false

abbrev pub is_returned : Writer → Bool
is_returned (returned _) = true
is_returned selecting = false
is_returned (writing _) = false

-- What the writer has taken from the channel and not written.
abbrev pub in_flight : Writer → List Bytes
in_flight selecting = []
in_flight (writing m) = m ∷ []
in_flight (returned lost) = lost

-- Whatever was accepted is written, in flight or queued, in this order; the queue fits the channel; the
-- channel is closed when a pump has returned, and never have both.
pub record IsSound (s : Pumps) : Type 0 where
  pub stream : s.accepted ≡ s.written ++ (in_flight s.writer ++ s.conn.queue)
  pub short : length s.conn.queue ≤ send_capacity
  pub shut : s.conn.closed ≡ (is_ended s.reader || is_returned s.writer)
  pub one_left : (is_ended s.reader && is_returned s.writer) ≡ false

abbrev pub Sound : Ran Pumps → Type 0
Sound = Holds IsSound

enqueue-IsSound :
    (s : Pumps) (m : Bytes) (r : Reader)
    → IsSound s
    → ltb (length s.conn.queue) send_capacity ≡ true
    → is_ended r ≡ is_ended s.reader
    → IsSound (enqueue s m r)
unfolding enqueue
enqueue-IsSound s m r v room same = record {
  stream = simp (v.stream, append_assoc);
  short = ground (arith, length-append s.conn.queue (m ∷ []), v.short);
  shut = v.shut ∙ ap (λ b. b || is_returned s.writer) (sym same);
  one_left = ap (λ b. b && is_returned s.writer) same ∙ v.one_left;
}

-- A pump that returns while the other one runs.
reader_returns-Sound :
    (s : Pumps)
    → IsSound s
    → is_ended s.reader ≡ false
    → Sound (reader_returns s (close_send s.conn))
unfolding reader_returns close_send
reader_returns-Sound s v runs = by_closed s.conn.closed refl
  where
    by_closed :
        (b : Bool)
        → s.conn.closed ≡ b
        → Sound (reader_returns s (if b then panic else ret (record s.conn { closed = true })))
    by_closed true _ = tt
    by_closed false up = record {
      stream = v.stream;
      short = v.short;
      shut = refl;
      one_left = ap (λ b. b || is_returned s.writer) (sym runs) ∙ sym v.shut ∙ up;
    }

writer_returns-Sound :
    (s : Pumps) (lost : List Bytes)
    → IsSound s
    → is_returned s.writer ≡ false
    → in_flight s.writer ≡ lost
    → Sound (writer_returns s lost (close_send s.conn))
unfolding writer_returns close_send
writer_returns-Sound s lost v runs same = by_closed s.conn.closed refl
  where
    by_closed :
        (b : Bool)
        → s.conn.closed ≡ b
        → Sound (writer_returns s lost (if b then panic else ret (record s.conn { closed = true })))
    by_closed true _ = tt
    by_closed false up = record {
      stream = rw (← same) v.stream;
      short = v.short;
      shut = ground arith;
      one_left = ground (arith, v.shut, up, runs);
    }

on_sent-Sound : (s : Pumps) (r : Reader) → s.reader ≡ r → IsSound s → Sound (on_sent s r)
unfolding on_sent
on_sent-Sound s reading e v = tt
on_sent-Sound s ended e v = tt
on_sent-Sound s (sending m) e v =
    by_tests s.conn.closed (ltb (length s.conn.queue) send_capacity) refl
  where
    by_tests :
        (down room : Bool)
        → ltb (length s.conn.queue) send_capacity ≡ room
        → Sound (if down then crashed else if room then at (enqueue s m reading) else stuck)
    by_tests true _ _ = tt
    by_tests false false _ = tt
    by_tests false true room = enqueue-IsSound s m reading v room (ap is_ended (sym e))

on_broadcast-Sound : (s : Pumps) (m : Bytes) → IsSound s → Sound (on_broadcast s m)
unfolding on_broadcast
on_broadcast-Sound s m v = by_tests s.conn.closed (ltb (length s.conn.queue) send_capacity) refl
  where
    by_tests :
        (down room : Bool)
        → ltb (length s.conn.queue) send_capacity ≡ room
        → Sound (if down then crashed else if room then at (enqueue s m s.reader) else at s)
    by_tests true _ _ = tt
    by_tests false false _ = v
    by_tests false true room = enqueue-IsSound s m s.reader v room refl

on_received-Sound : (s : Pumps) (w : Writer) → s.writer ≡ w → IsSound s → Sound (on_received s w)
unfolding on_received receive_from
on_received-Sound s (writing m) e v = tt
on_received-Sound s (returned lost) e v = tt
on_received-Sound s selecting e v = by_queue s.conn.queue refl
  where
    empty : (down : Bool) → Sound (if down then writer_returns s [] (close_send s.conn) else stuck)
    empty true = writer_returns-Sound s [] v (ap is_returned e) (ap in_flight e)
    empty false = tt

    by_queue : (q : List Bytes) → s.conn.queue ≡ q → Sound (receive_from s q)
    by_queue [] none_waits = empty s.conn.closed
    by_queue (m ∷ q) waits = record {
      stream =
          v.stream ∙ ap (λ l. s.written ++ l) (ap (λ w. in_flight w ++ s.conn.queue) e ∙ waits);
      short = omega (arith, v.short, ap length waits);
      shut = v.shut ∙ ap (λ w. is_ended s.reader || is_returned w) e;
      one_left = ap (λ w. is_ended s.reader && is_returned w) (sym e) ∙ v.one_left;
    }

on_write_done-Sound :
    (s : Pumps) (w : Writer) → s.writer ≡ w → IsSound s → Sound (on_write_done s w)
unfolding on_write_done
on_write_done-Sound s selecting e v = tt
on_write_done-Sound s (returned lost) e v = tt
on_write_done-Sound s (writing m) e v = record {
  stream =
      v.stream
      ∙ ap (λ w. s.written ++ (in_flight w ++ s.conn.queue)) e
      ∙ sym (append_assoc s.written (m ∷ []) s.conn.queue);
  short = v.short;
  shut = v.shut ∙ ap (λ w. is_ended s.reader || is_returned w) e;
  one_left = ap (λ w. is_ended s.reader && is_returned w) (sym e) ∙ v.one_left;
}

on_write_failed-Sound :
    (s : Pumps) (w : Writer) → s.writer ≡ w → IsSound s → Sound (on_write_failed s w)
unfolding on_write_failed
on_write_failed-Sound s selecting e v = tt
on_write_failed-Sound s (returned lost) e v = tt
on_write_failed-Sound s (writing m) e v =
    writer_returns-Sound s (m ∷ []) v (ap is_returned e) (ap in_flight e)

on_ping-Sound :
    (s : Pumps) (fine : Bool) (w : Writer) → s.writer ≡ w → IsSound s → Sound (on_ping s fine w)
unfolding on_ping
on_ping-Sound s true selecting e v = v
on_ping-Sound s false selecting e v =
    writer_returns-Sound s [] v (ap is_returned e) (ap in_flight e)
on_ping-Sound s true (writing _) e v = tt
on_ping-Sound s false (writing _) e v = tt
on_ping-Sound s true (returned _) e v = tt
on_ping-Sound s false (returned _) e v = tt

on_read_failed-Sound :
    (s : Pumps) (r : Reader) → s.reader ≡ r → IsSound s → Sound (on_read_failed s r)
unfolding on_read_failed
on_read_failed-Sound s reading e v = reader_returns-Sound s v (ap is_ended e)
on_read_failed-Sound s (sending m) e v = tt
on_read_failed-Sound s ended e v = tt

module _ (reply : Bytes → Bytes) where
  on_message-Sound :
      (s : Pumps) (m : Bytes) (r : Reader)
      → s.reader ≡ r
      → IsSound s
      → Sound (on_message reply s m r)
  unfolding on_message
  on_message-Sound s m reading e v = record {
    stream = v.stream;
    short = v.short;
    shut = v.shut ∙ ap (λ r. is_ended r || is_returned s.writer) e;
    one_left = ap (λ r. is_ended r && is_returned s.writer) (sym e) ∙ v.one_left;
  }
  on_message-Sound s m (sending _) e v = tt
  on_message-Sound s m ended e v = tt

  pub step-Sound : (s : Pumps) (e : Event) → IsSound s → Sound (step reply s e)
  unfolding step
  step-Sound s (message_read m) v = on_message-Sound s m s.reader refl v
  step-Sound s (broadcast m) v = on_broadcast-Sound s m v
  step-Sound s read_failed v = on_read_failed-Sound s s.reader refl v
  step-Sound s sent v = on_sent-Sound s s.reader refl v
  step-Sound s received v = on_received-Sound s s.writer refl v
  step-Sound s write_done v = on_write_done-Sound s s.writer refl v
  step-Sound s write_failed v = on_write_failed-Sound s s.writer refl v
  step-Sound s ping_done v = on_ping-Sound s true s.writer refl v
  step-Sound s ping_failed v = on_ping-Sound s false s.writer refl v

pub start-IsSound : (id : ℕ) → IsSound (start id)
unfolding start new_conn
start-IsSound id = record { stream = refl; short = omega arith; shut = refl; one_left = refl }

-- In every interleaving of a new connection's pumps, of the messages of its client and of broadcasts
-- that has not crashed: what the channel accepted is, in this order, what the socket took, what the
-- writer holds or lost, and what is queued; the queue is within the channel's 256; and the channel is
-- closed exactly if one of the pumps has returned, which never both have.
pub pumps_stream :
    (reply : Bytes → Bytes) (id : ℕ) (es : List Event) (s : Pumps)
    → run (step reply) (start id) es ≡ at s
    → IsSound s
pumps_stream reply id es s h =
    reached (step reply) IsSound Any (start id) s es (λ t e k v. step-Sound reply t e v)
      (all-Any es) (start-IsSound id) h
