-- ===== src/Base/Slices.antt =====
-- Byte slices of Go as lists of numbers: `copy`, writes at an offset, zeroed memory.
use multi_terminal.Base.Lists.{length}
use Prim.Native.Char.{code}
use Prim.Native.String.{String}
use Prim.Native.Nat.{ℕ, zero, suc}
use mathlib.Core.Path.{◌≡◌, refl, ap}
use mathlib.Core.List.{List, [], ◌∷◌, ◌++◌}
use native.Mathlib.Omega.{arith}

abbrev pub Bytes : Type 0
Bytes = List ℕ

-- The bytes of an ASCII text.
abbrev pub codes : String → Bytes
codes String.[] = []
codes (String.◌∷◌ c s) = code c ∷ codes s

-- `copy(dst, src)`: what `dst` holds afterwards.
abbrev pub copy : Bytes → Bytes → Bytes
copy [] src = []
copy (d ∷ dst) [] = d ∷ dst
copy (d ∷ dst) (s ∷ src) = s ∷ copy dst src

-- `copy(buf[off:], src)` for an offset within `buf`: what `buf` holds afterwards.
abbrev pub copy_at : Bytes → ℕ → Bytes → Bytes
copy_at buf zero src = copy buf src
copy_at [] (suc off) src = []
copy_at (b ∷ buf) (suc off) src = b ∷ copy_at buf off src

pub length-copy : (dst src : Bytes) → length (copy dst src) ≡ length dst
length-copy [] src = refl
length-copy (d ∷ dst) [] = refl
length-copy (d ∷ dst) (s ∷ src) = ap suc (length-copy dst src)

pub length-copy_at :
    (buf : Bytes) (off : ℕ) (src : Bytes) → length (copy_at buf off src) ≡ length buf
length-copy_at buf zero src = length-copy buf src
length-copy_at [] (suc off) src = refl
length-copy_at (b ∷ buf) (suc off) src = ap suc (length-copy_at buf off src)

-- A copy over the front of a slice that is long enough.
pub copy-append :
    (old src rest : Bytes) → length old ≡ length src → copy (old ++ rest) src ≡ src ++ rest
copy-append [] [] [] e = refl
copy-append [] [] (r ∷ rest) e = refl
copy-append [] (s ∷ src) rest e = absurd (omega arith)
copy-append (d ∷ old) [] rest e = absurd (omega arith)
copy-append (d ∷ old) (s ∷ src) rest e = ap (◌∷◌ s) (copy-append old src rest (omega arith))

-- A write after `front` replaces as many bytes as it brings, and leaves the others.
pub copy_at-append :
    (front old src rest : Bytes)
    → length old ≡ length src
    → copy_at (front ++ (old ++ rest)) (length front) src ≡ front ++ (src ++ rest)
copy_at-append [] old src rest e = copy-append old src rest e
copy_at-append (f ∷ front) old src rest e = ap (◌∷◌ f) (copy_at-append front old src rest e)
