-- ===== src/Pool.antt =====
-- gateway/pkg/buffer/pool.go: reusable buffers in three sizes.
-- A slice is its backing array, whose length is the capacity, and a length. A sync.Pool may hand out
-- any pooled item or none: `reuse` is its choice, and the order of a list stands for any order.
pub mod Classes
use multi_terminal.Base.{
  ℕ, Bool, true, false, List, [], ◌∷◌, leb, ◌==◌, if◌then◌else◌, length, replicate,
}
use multi_terminal.Base.Slices.{Bytes}

pub record Slice : Type 0 where
  pub backing : Bytes
  pub len : ℕ

abbrev pub cap : Slice → ℕ
cap s = length s.backing

pub record Pool : Type 0 where
  pub small : List Slice
  pub medium : List Slice
  pub large : List Slice

unfoldable pub new_pool : Pool
new_pool = record { small = []; medium = []; large = [] }

-- `sync.Pool.Get`: a pooled slice, or `New`'s `make([]byte, n)`; and what stays in the pool.
unfoldable pub pool_get : List Slice → ℕ → Bool → Slice × List Slice
pool_get (s ∷ rest) n true = (s, rest)
pool_get items n _ = (record { backing = replicate n 0; len = n }, items)

-- `s[:n]`
abbrev pub reslice : Slice → ℕ → Slice
reslice s n = record s { len = n }

unfoldable pub get : Pool → ℕ → Bool → Slice × Pool
get p size reuse =
    if leb size 256
    then (let (s, rest) = pool_get p.small 256 reuse in (reslice s 0, record p { small = rest }))
    else if leb size 4096
    then (let (s, rest) = pool_get p.medium 4096 reuse in (reslice s 0, record p { medium = rest }))
    else let (s, rest) = pool_get p.large 32768 reuse in (reslice s 0, record p { large = rest })

unfoldable pub put : Pool → Slice → Pool
put p buf =
    if cap buf == 256
    then record p { small = reslice buf 256 ∷ p.small }
    else if cap buf == 4096
    then record p { medium = reslice buf 4096 ∷ p.medium }
    else if cap buf == 32768
    then record p { large = reslice buf 32768 ∷ p.large }
    else p
