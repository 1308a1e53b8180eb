-- ===== src/Ring/Window.antt =====
-- The bytes of a ring from a position of its counters on, as an unbounded sequence.
use native.Mathlib.Nat.{
  mod-add-mod, mod-eq_of_lt, mod-eq-sub-mod, mod-lt, mod_self, zero-add, add-zero, suc-add,
  sub-zero,
}
use native.Mathlib.Numerals.{add-one}
use native.Mathlib.Decide.{dec_lt}
use multi_terminal.Base.{
  ℕ, zero, suc, ◌+◌, ◌-◌, ◌%◌, ◌≤◌, ◌<◌, ◌≡◌, ◌≢◌, refl, sym, ap, ap₂, ◌∙◌, subst, ◌⊎◌, [], ◌∷◌,
  ◌++◌, length, take, drop, get_or, arith,
}
use multi_terminal.Base.Slices.{Bytes, copy, copy_at}

-- Steps round the ring that do not reach its end.
pub mod_steps : {size : ℕ} (i k : ℕ) → i % size + k < size → (i + k) % size ≡ i % size + k
mod_steps {size} i k h = sym (mod-add-mod i size k) ∙ mod-eq_of_lt h

-- Steps that reach the end exactly.
pub mod_round : {size : ℕ} (i k : ℕ) → i % size + k ≡ size → (i + k) % size ≡ 0
mod_round {size} i k h = sym (mod-add-mod i size k) ∙ ap (λ n. n % size) h ∙ mod_self size

-- Fewer than `size` steps round the ring do not come back to the start.
pub mod_ne : {size : ℕ} (i k : ℕ) → 0 < k → k < size → (i + k) % size ≢ i % size
mod_ne {size} i k hk h e = elim (dec_lt (i % size + k) size) [
  | yes p ↦ omega (arith, mod_steps i k p)
  | no p ↦ omega (
    arith,
    mod-add-mod i size k,
    mod-lt i {m = size} (omega arith),
    mod-eq-sub-mod {n = i % size + k} {m = size} (omega arith),
    mod-eq_of_lt {n = i % size + k - size} {m = size}
        (omega (arith, mod-lt i {m = size} (omega arith))),
  )
]

drop-get_or : (xs : Bytes) (k : ℕ) → k < length xs → drop k xs ≡ get_or xs k 0 ∷ drop (suc k) xs
drop-get_or [] k h = absurd (omega arith)
drop-get_or (x ∷ xs) zero h = refl
drop-get_or (x ∷ xs) (suc k) h = drop-get_or xs k (omega arith)

module _ (size : ℕ) (bytes : Bytes) where
  abbrev pub window : ℕ → ℕ → Bytes
  window i zero = []
  window i (suc n) = get_or bytes (i % size) 0 ∷ window (i + 1) n

  pub length-window : (i n : ℕ) → length (window i n) ≡ n
  length-window i zero = refl
  length-window i (suc n) = ap suc (length-window (i + 1) n)

  pub window-append : (i m n : ℕ) → window i (m + n) ≡ window i m ++ window (i + m) n
  window-append i zero n = rw (zero-add, add-zero)
  window-append i (suc m) n = rw suc-add (
      ap (◌∷◌ (get_or bytes (i % size) 0))
        (window-append (i + 1) m n ∙ ap (λ k. window (i + 1) m ++ window k n) shift))
    where
      shift : i + 1 + m ≡ i + suc m
      shift = omega arith

  -- A window that does not go round the end is a piece of the storage.
  pub window-flat :
      (i n : ℕ)
      → length bytes ≡ size
      → i % size + n ≤ size
      → window i n ≡ take n (drop (i % size) bytes)
  window-flat i zero e h = refl
  window-flat i (suc zero) e h = rw (drop-get_or bytes (i % size) (omega arith))
  window-flat i (suc (suc n)) e h = rw (drop-get_or bytes (i % size) (omega arith)) (
      ap (◌∷◌ (get_or bytes (i % size) 0)) (
        window-flat (i + 1) (suc n) e (omega (arith, mod_steps {size = size} i 1 (omega arith)))
        ∙ ap (λ k. take (suc n) (drop k bytes)) (mod_steps i 1 (omega arith) ∙ add-one (i % size))))

  -- The first bytes of a window are a window, and so are the others.
  pub take-window : (i m n : ℕ) → m ≤ n → take m (window i n) ≡ window i m
  take-window i zero n h = refl
  take-window i (suc m) zero h = absurd (omega arith)
  take-window i (suc m) (suc n) h =
      ap (◌∷◌ (get_or bytes (i % size) 0)) (take-window (i + 1) m n (omega arith))

  pub drop-window : (i m n : ℕ) → m ≤ n → drop m (window i n) ≡ window (i + m) (n - m)
  drop-window i zero n h = rw (add-zero, sub-zero)
  drop-window i (suc m) zero h = absurd (omega arith)
  drop-window i (suc m) (suc n) h =
      drop-window (i + 1) m n (omega arith) ∙ ap₂ window (omega arith) (omega arith)

get_or-copy_beyond :
    (dst src : Bytes) (i : ℕ) → length src ≤ i → get_or (copy dst src) i 0 ≡ get_or dst i 0
get_or-copy_beyond [] src i h = refl
get_or-copy_beyond (d ∷ dst) [] i h = refl
get_or-copy_beyond (d ∷ dst) (s ∷ src) zero h = absurd (omega arith)
get_or-copy_beyond (d ∷ dst) (s ∷ src) (suc i) h = get_or-copy_beyond dst src i (omega arith)

get_or-copy_at_outside :
    (buf src : Bytes) (off i : ℕ)
    → (i < off) ⊎ (off + length src ≤ i)
    → get_or (copy_at buf off src) i 0 ≡ get_or buf i 0
get_or-copy_at_outside buf src zero i h = get_or-copy_beyond buf src i (omega arith)
get_or-copy_at_outside [] src (suc off) i h = refl
get_or-copy_at_outside (b ∷ buf) src (suc off) zero h = refl
get_or-copy_at_outside (b ∷ buf) src (suc off) (suc i) h =
    get_or-copy_at_outside buf src off i (omega arith)

-- A write away from a window leaves it alone.
pub window-copy_at :
    (size : ℕ) (bytes src : Bytes) (off i n : ℕ)
    → ((k : ℕ) → k < n → ((i + k) % size < off) ⊎ (off + length src ≤ (i + k) % size))
    → window size (copy_at bytes off src) i n ≡ window size bytes i n
window-copy_at size bytes src off i zero away = refl
window-copy_at size bytes src off i (suc n) away = ap₂ ◌∷◌ here (
    window-copy_at size bytes src off (i + 1) n
      (λ k h. subst Away (shift k) (away (suc k) (omega arith))))
  where
    Away : ℕ → Type 0
    Away j = (j % size < off) ⊎ (off + length src ≤ j % size)

    shift : (k : ℕ) → i + suc k ≡ i + 1 + k
    shift k = omega arith

    here : get_or (copy_at bytes off src) (i % size) 0 ≡ get_or bytes (i % size) 0
    here =
        get_or-copy_at_outside bytes src off (i % size)
          (subst Away (add-zero i) (away 0 (omega arith)))

pub drop-copy_at :
    (buf : Bytes) (off : ℕ) (src : Bytes) → drop off (copy_at buf off src) ≡ copy (drop off buf) src
drop-copy_at buf zero src = refl
drop-copy_at [] (suc off) [] = refl
drop-copy_at [] (suc off) (s ∷ src) = refl
drop-copy_at (b ∷ buf) (suc off) src = drop-copy_at buf off src

-- As many bytes as were copied are those of the source.
pub take-copy :
    (dst src : Bytes) (n : ℕ) → n ≤ length src → n ≤ length dst → take n (copy dst src) ≡ take n src
take-copy dst src zero h k = refl
take-copy [] src (suc n) h k = absurd (omega arith)
take-copy (d ∷ dst) [] (suc n) h k = absurd (omega arith)
take-copy (d ∷ dst) (s ∷ src) (suc n) h k =
    ap (◌∷◌ s) (take-copy dst src n (omega arith) (omega arith))
