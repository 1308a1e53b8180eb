-- ===== src/Pool/Classes.antt =====
-- What the pool promises of the buffers that it hands out (pkg/buffer/pool.go).
use multi_terminal.Base.{
  ℕ, ◌≤◌, ◌≡◌, min, Bool, true, false, List, [], ◌∷◌, All, length-replicate, leb, if◌then◌else◌,
  arith,
}
use multi_terminal.Pool.{Slice, cap, Pool, new_pool, pool_get, get, put}

-- A pooled slice has its pool's size, as capacity and as length.
pub record HasSize (n : ℕ) (s : Slice) : Type 0 where
  pub capacity : cap s ≡ n
  pub full : s.len ≡ n

pub record IsPool (p : Pool) : Type 0 where
  pub smalls : All (HasSize 256) p.small
  pub mediums : All (HasSize 4096) p.medium
  pub larges : All (HasSize 32768) p.large

pub new_pool-IsPool : IsPool new_pool
unfolding new_pool
new_pool-IsPool = record { smalls = tt; mediums = tt; larges = tt }

-- The size class of a request.
abbrev pub class_of : ℕ → ℕ
class_of size = if leb size 256 then 256 else if leb size 4096 then 4096 else 32768

pool_get-All :
    (n : ℕ) (items : List Slice) (reuse : Bool)
    → All (HasSize n) items
    → let (s, rest) = pool_get items n reuse in (cap s ≡ n) × All (HasSize n) rest
unfolding pool_get
pool_get-All n (s ∷ rest) true h = (h.0.capacity, h.1)
pool_get-All n (s ∷ rest) false h = (length-replicate n 0, h)
pool_get-All n [] true h = (length-replicate n 0, h)
pool_get-All n [] false h = (length-replicate n 0, h)

-- Whatever the sync.Pool does, `Get` hands out a slice of length 0 whose capacity is that of the
-- request's size class and at least the request's size, or 32768 for a larger one, and keeps the
-- pools sorted by size. The pools must be sorted by size before.
pub get_lem :
    (p : Pool) (size : ℕ) (reuse : Bool)
    → IsPool p
    → let (s, p') = get p size reuse in
      (s.len ≡ 0) × (cap s ≡ class_of size) × (min size 32768 ≤ cap s) × IsPool p'
unfolding get
get_lem p size reuse h = ground (
  arith,
  pool_get-All 256 p.small reuse h.smalls,
  pool_get-All 4096 p.medium reuse h.mediums,
  pool_get-All 32768 p.large reuse h.larges,
)

-- `Put` keeps pools that are sorted by size so, whatever slice it is given.
pub put-IsPool : (p : Pool) (s : Slice) → IsPool p → IsPool (put p s)
unfolding put
put-IsPool p s h = ground arith

-- A slice with the capacity of a size class goes back to the pool of that class: the next request of the class
-- that the sync.Pool serves from its items gets the same backing array.
pub get-put :
    (p : Pool) (s : Slice) (size : ℕ)
    → cap s ≡ class_of size
    → (get (put p s) size true).0 ≡ record s { len = 0 }
unfolding get put pool_get
get-put p s size h = ground arith
