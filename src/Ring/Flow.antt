-- ===== src/Ring/Flow.antt =====
-- Whole histories of a ring buffer: the byte stream that goes through it.
use multi_terminal.Base.{
  ℕ, ◌+◌, ◌≤◌, ◌<◌, ◌≡◌, refl, sym, ap, ap₂, ◌∙◌, [], ◌++◌, append_assoc, append-nil, length, take,
  drop, take-append-drop, arith, Bool-cases, inl, inr,
}
use multi_terminal.Base.Slices.{Bytes}
use multi_terminal.Ring.{RingBuffer, new_ring, write, try_read, close}
use multi_terminal.Ring.Contents.{IsValid, contents, new_ring-IsValid}
use multi_terminal.Ring.Refine.{write_refines, try_read_refines, write_closed}

-- A history of calls from one state to another, with the bytes that `Write` accepted and those that
-- `TryRead` gave, in order. A writer of this history never offers more than there is room for.
pub data Flow (size : ℕ) (to : RingBuffer) : RingBuffer → Bytes → Bytes → Type 0 where
  done : Flow size to to [] []
  wrote :
      {rb : RingBuffer} {ins outs : Bytes} (p : Bytes)
      → length (contents size rb) + length p ≤ size
      → Flow size to (write size rb p).ring ins outs
      → Flow size to rb (take (write size rb p).count p ++ ins) outs
  took :
      {rb : RingBuffer} {ins outs : Bytes} (len_p : ℕ)
      → Flow size to (try_read size rb len_p).ring ins outs
      → Flow size to rb ins ((try_read size rb len_p).got ++ outs)
  closed :
      {rb : RingBuffer} {ins outs : Bytes}
      → Flow size to (close size rb) ins outs
      → Flow size to rb ins outs

module _ (size : ℕ) where
  -- One write: nothing where the buffer is closed.
  contents-write :
      {rb : RingBuffer} (p : Bytes)
      → IsValid size rb
      → length (contents size rb) + length p ≤ size
      → (contents size (write size rb p).ring ≡ contents size rb ++ take (write size rb p).count p)
        × IsValid size (write size rb p).ring
  contents-write {rb} p v room = elim (Bool-cases rb.closed) [
    | inl shut ↦ rw (write_closed size rb p shut) (sym (append-nil _), v)
    | inr opened ↦ let r = write_refines size p v opened room in (r.2, r.3)
  ]

  close-IsValid : (rb : RingBuffer) → IsValid size rb → IsValid size (close size rb)
  unfolding close
  close-IsValid rb v = ground arith

  contents-close : (rb : RingBuffer) → contents size (close size rb) ≡ contents size rb
  unfolding close
  contents-close rb = refl

  Flow-stream :
      {to rb : RingBuffer} {ins outs : Bytes}
      → IsValid size rb
      → Flow size to rb ins outs
      → (contents size rb ++ ins ≡ outs ++ contents size to) × IsValid size to
  Flow-stream v done = (append-nil _, v)
  Flow-stream {rb = rb} v (wrote {ins = ins} p room rest) =
      let (step, v') = contents-write p v room in
      let (stream, last) = Flow-stream v' rest in
      (sym (append_assoc (contents size rb) _ ins) ∙ ap (λ l. l ++ ins) (sym step) ∙ stream, last)
  Flow-stream {to} {rb} v (took {ins = ins} {outs = outs} len_p rest) =
      let r = try_read_refines size len_p v in
      let (stream, last) = Flow-stream r.4 rest in
      (
        ap (λ l. l ++ ins) (sym (take-append-drop len_p (contents size rb)))
            ∙ append_assoc (take len_p (contents size rb)) (drop len_p (contents size rb)) ins
            ∙ ap₂ ◌++◌ (sym r.0) (ap (λ l. l ++ ins) (sym r.2) ∙ stream)
            ∙ sym (append_assoc (try_read size rb len_p).got outs (contents size to)),
        last,
      )
  Flow-stream {rb = rb} v (closed {ins = ins} rest) =
      let (stream, last) = Flow-stream (close-IsValid rb v) rest in
      (ap (λ l. l ++ ins) (sym (contents-close rb)) ∙ stream, last)

  -- From a new buffer of a positive size on, in every history of writes that fit, calls of `TryRead`
  -- and closes: whatever was accepted is what `TryRead` gave followed by what still waits, byte for byte
  -- and in order; the counters stay in order and at most `size` apart. `Read` is not called.
  pub new_ring_stream :
      {to : RingBuffer} {ins outs : Bytes}
      → 0 < size
      → Flow size to (new_ring size) ins outs
      → (ins ≡ outs ++ contents size to) × IsValid size to
  new_ring_stream {ins = ins} h flow =
      let (stream, last) = Flow-stream (new_ring-IsValid size h) flow in
      (ap (λ l. l ++ ins) (sym empty) ∙ stream, last)
    where
      empty : contents size (new_ring size) ≡ []
      empty = unfold new_ring in refl
