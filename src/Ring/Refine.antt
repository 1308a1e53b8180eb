-- ===== src/Ring/Refine.antt =====
-- A ring buffer as the queue of the bytes that were written and not yet read.
use native.Mathlib.Decide.{dec_le}
use multi_terminal.Base.{
  ℕ, ◌+◌, ◌-◌, ◌%◌, ◌≤◌, ◌<◌, ◌≡◌, refl, sym, ap, ◌∙◌, true, false, ◌&&◌, none, some, [], ◌++◌,
  length, length-take, take-nil, drop-nil, take-min, drop-min, take, drop, min, arith, leb,
  if◌then◌else◌,
}
use multi_terminal.Base.Slices.{Bytes}
use multi_terminal.Ring.{RingBuffer, eof, buffer_full, copied, fill, write, pieces, try_read}
use multi_terminal.Ring.Window.{window, take-window, drop-window}
use multi_terminal.Ring.Contents.{
  IsValid, contents, length-contents, contents_empty, contents-fill, fill-IsValid, pieces-window,
}

module _ (size : ℕ) where
  pub write_closed :
      (rb : RingBuffer) (p : Bytes)
      → rb.closed ≡ true
      → write size rb p ≡ record { count = 0; error = some eof; ring = rb }
  unfolding write
  write_closed rb p shut = ground arith

  pub write_open :
      (rb : RingBuffer) (p : Bytes)
      → rb.closed ≡ false
      → length p + rb.write ≤ size + rb.read
      → write size rb p ≡ record { count = copied size rb p; error = none; ring = fill size rb p }
  unfolding write
  write_open rb p opened enough = ground arith

  pub write_over :
      (rb : RingBuffer) (p : Bytes)
      → rb.closed ≡ false
      → size + rb.read < length p + rb.write
      → write size rb p
        ≡ record { count = copied size rb p; error = some buffer_full; ring = fill size rb p }
  unfolding write
  write_over rb p opened over = ground arith

  try_read_nothing :
      (rb : RingBuffer) (len_p : ℕ)
      → rb.write ≤ rb.read
      → try_read size rb len_p
        ≡ record { count = 0; got = []; error = if rb.closed then some eof else none; ring = rb }
  unfolding try_read
  try_read_nothing rb len_p h = ground arith

  pub try_read_some :
      (rb : RingBuffer) (len_p : ℕ)
      → rb.read < rb.write
      → let n = min len_p (rb.write - rb.read) in
        try_read size rb len_p ≡ record {
          count = n;
          got = pieces size rb n;
          error = none;
          ring = record rb { read = rb.read + n };
        }
  unfolding try_read
  try_read_some rb len_p h = ground arith

  -- A write to a valid, open buffer with room for all of `p` takes as many bytes as fit before the end of
  -- the storage, reports no error, appends exactly those to what waits, and keeps the buffer valid.
  pub write_refines :
      {rb : RingBuffer} (p : Bytes)
      → IsValid size rb
      → rb.closed ≡ false
      → length (contents size rb) + length p ≤ size
      → let w = write size rb p in
        (w.error ≡ none)
        × (w.count ≡ min (length p) (size - rb.write % size))
        × (contents size w.ring ≡ contents size rb ++ take w.count p)
        × IsValid size w.ring
  write_refines {rb} p v opened room =
      rw (write_open rb p opened enough)
        (refl, omega (arith, v.storage), contents-fill size p v fits, fill-IsValid size p v fits)
    where
      enough : length p + rb.write ≤ size + rb.read
      enough = omega (arith, length-contents size rb, v.ordered)

      fits : rb.write + copied size rb p ≤ rb.read + size
      fits = omega (arith, enough)

  -- On a valid buffer `TryRead` gives the oldest bytes, as many as `p` holds and as wait, takes just
  -- those away, and keeps the buffer valid; it reports io.EOF exactly when the buffer is closed and
  -- nothing waits.
  pub try_read_refines :
      {rb : RingBuffer} (len_p : ℕ)
      → IsValid size rb
      → let t = try_read size rb len_p in
        (t.got ≡ take len_p (contents size rb))
        × (t.count ≡ length t.got)
        × (contents size t.ring ≡ drop len_p (contents size rb))
        × (t.error ≡ (if rb.closed && leb rb.write rb.read then some eof else none))
        × IsValid size t.ring
  try_read_refines {rb} len_p v = elim (dec_le rb.write rb.read) [
    | yes empty ↦
        let gone : contents size rb ≡ [] = contents_empty size rb empty in
        rw (try_read_nothing rb len_p empty) (
          sym (ap (take len_p) gone ∙ take-nil len_p),
          refl,
          gone ∙ sym (ap (drop len_p) gone ∙ drop-nil len_p),
          ground arith,
          v,
        )
    | no there ↦
        let n : ℕ = min len_p (rb.write - rb.read) in
        let waiting : rb.write ≤ rb.read + size = v.bounded in
        let got : pieces size rb n ≡ take len_p (contents size rb) =
          pieces-window size n v (omega arith)
          ∙ sym (take-window size rb.bytes rb.read n _ (omega arith))
          ∙ take-min len_p (rb.write - rb.read) (contents size rb) (length-contents size rb) in
        rw (try_read_some rb len_p (omega arith)) (
          got,
          omega
              (arith, ap length got, length-take len_p (contents size rb), length-contents size rb),
          left n (omega arith)
              ∙ drop-min len_p (rb.write - rb.read) (contents size rb) (length-contents size rb),
          ground arith,
          record {
            positive = v.positive;
            storage = v.storage;
            ordered = omega (arith, v.ordered);
            bounded = omega (arith, waiting);
          },
        )
  ]
    where
      left :
          (n : ℕ)
          → n ≤ rb.write - rb.read
          → window size rb.bytes (rb.read + n) (rb.write - (rb.read + n))
            ≡ drop n (contents size rb)
      left n h =
          ap (window size rb.bytes (rb.read + n)) (omega arith)
          ∙ sym (drop-window size rb.bytes rb.read n _ h)
