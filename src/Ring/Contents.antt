-- ===== src/Ring/Contents.antt =====
-- What waits in a ring buffer, and what a copy in or out changes of it (router/buffer.go).
use native.Mathlib.Nat.{mod-lt}
use native.Mathlib.Decide.{dec_lt}
use multi_terminal.Base.{
  ℕ, ◌+◌, ◌-◌, ◌%◌, ◌≤◌, ◌<◌, ◌≡◌, sym, ap, ap₂, ◌∙◌, ◌⊎◌, inl, inr, [], ◌++◌, length,
  length-replicate, length-drop, take, drop, arith, leb, Bool-cases, leb→lt, tests,
}
use multi_terminal.Base.Slices.{Bytes, copy_at, length-copy_at}
use multi_terminal.Ring.{RingBuffer, new_ring, copied, fill, pieces}
use multi_terminal.Ring.Window.{
  window, length-window, window-append, window-flat, window-copy_at, drop-copy_at, take-copy,
  mod_steps, mod_round, mod_ne,
}

-- The counters are in order and no further apart than the storage is long.
pub record IsValid (size : ℕ) (rb : RingBuffer) : Type 0 where
  pub positive : 0 < size
  pub storage : length rb.bytes ≡ size
  pub ordered : rb.read ≤ rb.write
  pub bounded : rb.write ≤ rb.read + size

module _ (size : ℕ) where
  -- The bytes that wait, the oldest first.
  abbrev pub contents : RingBuffer → Bytes
  contents rb = window size rb.bytes rb.read (rb.write - rb.read)

  pub length-contents : (rb : RingBuffer) → length (contents rb) ≡ rb.write - rb.read
  length-contents rb = length-window size rb.bytes rb.read (rb.write - rb.read)

  pub contents_empty : (rb : RingBuffer) → rb.write ≤ rb.read → contents rb ≡ []
  contents_empty rb h =
      let none_left : rb.write - rb.read ≡ 0 = omega arith in
      ap (window size rb.bytes rb.read) none_left

  pub new_ring-IsValid : 0 < size → IsValid size (new_ring size)
  unfolding new_ring
  new_ring-IsValid h = record {
    positive = h;
    storage = length-replicate size 0;
    ordered = omega arith;
    bounded = omega arith;
  }

  -- A write that stays behind the reader touches no byte that waits.
  write_away :
      {rb : RingBuffer} (p : Bytes)
      → IsValid size rb
      → rb.write + copied size rb p ≤ rb.read + size
      → (k : ℕ) → k < rb.write - rb.read
      → ((rb.read + k) % size < rb.write % size)
        ⊎ (rb.write % size + length p ≤ (rb.read + k) % size)
  write_away {rb} p v fits k h = elim (dec_lt j off) [
    | yes before ↦ inl before
    | no after ↦ elim (dec_lt j (off + n)) [
      | yes hit ↦ absurd (clash (omega arith) (omega arith))
      | no beyond ↦ inr (omega (arith, v.storage, mod-lt (rb.read + k) {m = size} v.positive))
    ]
  ]
    where
      j : ℕ
      j = (rb.read + k) % size

      off : ℕ
      off = rb.write % size

      n : ℕ
      n = copied size rb p

      clash : off ≤ j → j < off + n → ⊥
      clash le lt =
          mod_ne {size = size} (rb.read + k) (rb.write + (j - off) - (rb.read + k)) (omega arith)
            (omega arith) (ap (λ x. x % size) there ∙ mod_steps rb.write (j - off) inside ∙ back)
        where
          there : rb.read + k + (rb.write + (j - off) - (rb.read + k)) ≡ rb.write + (j - off)
          there = omega arith

          inside : rb.write % size + (j - off) < size
          inside = omega (arith, mod-lt (rb.read + k) {m = size} v.positive)

          back : rb.write % size + (j - off) ≡ j
          back = omega arith

  pub fill-IsValid :
      {rb : RingBuffer} (p : Bytes)
      → IsValid size rb
      → rb.write + copied size rb p ≤ rb.read + size
      → IsValid size (fill size rb p)
  unfolding fill
  fill-IsValid {rb} p v fits = record {
    positive = v.positive;
    storage = length-copy_at rb.bytes (rb.write % size) p ∙ v.storage;
    ordered = omega (arith, v.ordered);
    bounded = fits;
  }

  -- Such a write appends the bytes that it takes.
  pub contents-fill :
      {rb : RingBuffer} (p : Bytes)
      → IsValid size rb
      → rb.write + copied size rb p ≤ rb.read + size
      → contents (fill size rb p) ≡ contents rb ++ take (copied size rb p) p
  unfolding fill
  contents-fill {rb} p v fits =
      ap (window size new rb.read) longer
      ∙ window-append size new rb.read (rb.write - rb.read) n
      ∙ ap₂ ◌++◌ (window-copy_at size rb.bytes p off rb.read _ (write_away p v fits)) added
    where
      n : ℕ
      n = copied size rb p

      off : ℕ
      off = rb.write % size

      new : Bytes
      new = copy_at rb.bytes off p

      longer : rb.write + n - rb.read ≡ rb.write - rb.read + n
      longer = omega (arith, v.ordered)

      in_storage : off + n ≤ size
      in_storage = omega (arith, v.storage, mod-lt rb.write {m = size} v.positive)

      added : window size new (rb.read + (rb.write - rb.read)) n ≡ take n p
      added =
          ap (λ i. window size new i n) (omega (arith, v.ordered))
          ∙ window-flat size new rb.write n (length-copy_at rb.bytes off p ∙ v.storage) in_storage
          ∙ ap (take n) (drop-copy_at rb.bytes off p)
          ∙ take-copy (drop off rb.bytes) p n (omega arith)
              (omega (arith, length-drop off rb.bytes))

  -- A window that goes round the end is a piece from its start and one from the front.
  window_round :
      {rb : RingBuffer} (n : ℕ)
      → IsValid size rb
      → n ≤ size
      → size - rb.read % size < n
      → window size rb.bytes rb.read n
        ≡ take (size - rb.read % size) (drop (rb.read % size) rb.bytes)
          ++ take (n - (size - rb.read % size)) rb.bytes
  window_round {rb} n v small over =
      ap (window size rb.bytes rb.read) split
      ∙ window-append size rb.bytes rb.read before (n - before)
      ∙ ap₂ ◌++◌ (window-flat size rb.bytes rb.read before v.storage (omega arith)) (
          window-flat size rb.bytes (rb.read + before) (n - before) v.storage second
          ∙ ap (λ k. take (n - before) (drop k rb.bytes)) front)
    where
      before : ℕ
      before = size - rb.read % size

      split : n ≡ before + (n - before)
      split = omega arith

      front : (rb.read + before) % size ≡ 0
      front = mod_round rb.read before (omega (arith, mod-lt rb.read {m = size} v.positive))

      second : (rb.read + before) % size + (n - before) ≤ size
      second = omega (arith, front)

  -- The pieces that `TryRead` copies are the oldest bytes, also round the end of the storage.
  pub pieces-window :
      {rb : RingBuffer} (n : ℕ)
      → IsValid size rb
      → n ≤ size
      → pieces size rb n ≡ window size rb.bytes rb.read n
  unfolding pieces
  pieces-window {rb} n v small = elim (Bool-cases (leb n (size - rb.read % size))) [
    | inl flat ↦ rw flat (
        sym (
          window-flat size rb.bytes rb.read n v.storage
            (omega (tests, mod-lt rb.read {m = size} v.positive))))
    | inr round ↦ rw round (sym (window_round n v small (leb→lt _ _ round)))
  ]
