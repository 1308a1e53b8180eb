-- ===== src/Ring/Faults.antt =====
-- Where the ring buffer of router/buffer.go does not keep its bytes.
use native.Mathlib.Nat.{mod-lt, add-mod_right}
use multi_terminal.Base.{
  ℕ, ◌+◌, ◌-◌, ◌%◌, ◌≤◌, ◌<◌, ◌≡◌, ◌↔◌, refl, sym, ap, ◌∙◌, subst, false, some, none, [], ◌∷◌,
  length, take, drop, arith, min, le→leb, lt→leb, length-drop,
}
use multi_terminal.Base.Slices.{Bytes, copy}
use multi_terminal.Ring.{RingBuffer, Took, buffer_full, copied, fill, write, read, pieces, try_read}
use multi_terminal.Ring.Window.{drop-copy_at}
use multi_terminal.Ring.Contents.{IsValid, contents, length-contents, fill-IsValid}
use multi_terminal.Ring.Refine.{write_over, write_refines, try_read_some}

module _ (size : ℕ) where
  write_ring :
      (rb : RingBuffer) (p : Bytes) → rb.closed ≡ false → (write size rb p).ring ≡ fill size rb p
  unfolding write
  write_ring rb p opened = ground arith

  -- A write to a valid, open buffer keeps it valid exactly when the bytes that it copies fit behind the
  -- reader.
  pub write-IsValid_iff :
      (rb : RingBuffer) (p : Bytes)
      → IsValid size rb
      → rb.closed ≡ false
      → IsValid size (write size rb p).ring
        ↔ (rb.write + min (length p) (size - rb.write % size) ≤ rb.read + size)
  write-IsValid_iff rb p v opened = (back, forth)
    where
      back :
          IsValid size (write size rb p).ring
          → rb.write + min (length p) (size - rb.write % size) ≤ rb.read + size
      back w =
          let shut : IsValid size (fill size rb p) =
            subst (IsValid size) (write_ring rb p opened) w in
          unfold fill in omega (arith, shut.bounded, v.storage)

      forth :
          rb.write + min (length p) (size - rb.write % size) ≤ rb.read + size
          → IsValid size (write size rb p).ring
      forth h =
          subst (IsValid size) (sym (write_ring rb p opened))
            (fill-IsValid size p v (omega (arith, v.storage)))

  head_copied :
      (dst : Bytes) (x : ℕ) (p : Bytes) → 0 < length dst → take 1 (copy dst (x ∷ p)) ≡ x ∷ []
  head_copied [] x p h = absurd (omega arith)
  head_copied (d ∷ dst) x p h = refl

  piece_first :
      (rb : RingBuffer) → 0 < size → pieces size rb 1 ≡ take 1 (drop (rb.read % size) rb.bytes)
  unfolding pieces
  piece_first rb h =
      let inside : 1 ≤ size - rb.read % size = omega (arith, mod-lt rb.read {m = size} h) in
      rw (le→leb _ _ inside)

  -- The write position of a full buffer is its read position.
  full_position : (rb : RingBuffer) → rb.write ≡ rb.read + size → rb.write % size ≡ rb.read % size
  full_position rb full = ap (λ n. n % size) full ∙ add-mod_right rb.read size

  -- A valid, open buffer that is full does not refuse bytes: a write reports ErrBufferFull, but has
  -- written over the oldest byte that waited; the next reader finds the first written byte there.
  pub write_full_overwrites :
      (rb : RingBuffer) (x : ℕ) (p : Bytes)
      → IsValid size rb
      → rb.closed ≡ false
      → rb.write ≡ rb.read + size
      → let w = write size rb (x ∷ p) in
        (w.error ≡ some buffer_full) × (0 < w.count) × ((try_read size w.ring 1).got ≡ x ∷ [])
  write_full_overwrites rb x p v opened full =
      rw (write_over size rb (x ∷ p) opened (omega arith)) (refl, taken, oldest)
    where
      off : ℕ
      off = rb.read % size

      off_lt : off < size
      off_lt = mod-lt rb.read {m = size} v.positive

      taken : 0 < copied size rb (x ∷ p)
      taken = omega (arith, v.storage, mod-lt rb.write {m = size} v.positive)

      after : RingBuffer
      after = fill size rb (x ∷ p)

      behind : after.read < after.write
      behind = unfold fill in omega (arith, taken)

      first : take 1 (drop (after.read % size) after.bytes) ≡ x ∷ []
      first =
          unfold fill in
          rw (full_position rb full, drop-copy_at)
            (head_copied (drop off rb.bytes) x p
              (omega (arith, length-drop off rb.bytes, v.storage, off_lt)))

      one : min 1 (after.write - after.read) ≡ 1
      one = omega (arith, behind)

      oldest : (try_read size after 1).got ≡ x ∷ []
      oldest =
          rw (try_read_some size after 1 behind)
            (ap (pieces size after) one ∙ piece_first after v.positive ∙ first)

  -- A write to a valid, open buffer that reaches the end of the storage stops there: it takes fewer
  -- bytes than `p` has, and reports no error, although there is room for all of them.
  pub write_short :
      (rb : RingBuffer) (p : Bytes)
      → IsValid size rb
      → rb.closed ≡ false
      → length (contents size rb) + length p ≤ size
      → size < rb.write % size + length p
      → ((write size rb p).count < length p) × ((write size rb p).error ≡ none)
  write_short rb p v opened room end =
      let r = write_refines size p v opened room in
      (omega (arith, r.1, mod-lt rb.write {m = size} v.positive), r.0)

  -- `Read` on a valid buffer that is not empty does not look how much waits: where the piece up to the end of the storage is longer, it
  -- returns bytes that were never written, and moves the reader past the writer.
  pub read_overruns :
      (rb : RingBuffer) (len_p : ℕ)
      → IsValid size rb
      → rb.read < rb.write
      → rb.write < rb.read + min len_p (size - rb.read % size)
      → (t : Took) × (read size rb len_p ≡ some t)
        × (length (contents size rb) < t.count)
        × (t.ring.write < t.ring.read)
  unfolding read
  read_overruns rb len_p v there over =
      let n : ℕ = min len_p (length rb.bytes - rb.read % size) in
      (
        record {
          count = n;
          got = take n (drop (rb.read % size) rb.bytes);
          error = none;
          ring = record rb { read = rb.read + n };
        },
        rw (lt→leb rb.write rb.read there),
        omega (arith, length-contents size rb, v.storage),
        omega (arith, v.storage),
      )
