-- ===== src/Ring.antt =====
-- gateway/internal/router/buffer.go: the ring buffer between a shell and the browser.
-- `size` is BufferSize, the length of `data`; the code has `buffer_size`, and the theorems hold for
-- every size. `read` and `write` are the two int64 counters, which count all bytes that ever went
-- through and would wrap after 2^63 of them; they are left unbounded. The mutex makes each method
-- one step. `write % size` is a valid index, since `data` keeps its length (`IsValid.storage`).
pub mod Window
pub mod Contents
pub mod Refine
pub mod Flow
pub mod Faults
mod Tests
use multi_terminal.Base.{
  ℕ, suc, ◌+◌, ◌-◌, ◌*◌, ◌/◌, ◌%◌, min, Bool, true, false, List, [], ◌∷◌, ◌++◌, Option, none, some,
  ltb, leb, if◌then◌else◌, length, take, drop, replicate,
}
use multi_terminal.Base.Int.{ℤ, pos, sub_ℕ, leb_ℤ}
use multi_terminal.Base.Slices.{Bytes, copy_at}

abbrev pub buffer_size : ℕ
buffer_size = 1024 * 1024

-- io.EOF and ErrBufferFull; ErrBufferEmpty is never returned.
pub data RingError : Type 0 where
  eof buffer_full : RingError

pub record RingBuffer : Type 0 where
  pub bytes : Bytes
  pub write : ℕ
  pub read : ℕ
  pub closed : Bool

-- What Go's `(int, error)` and the new state are.
pub record Wrote : Type 0 where
  pub count : ℕ
  pub error : Option RingError
  pub ring : RingBuffer

-- `got` is what the call put into the front of `p`.
pub record Took : Type 0 where
  pub count : ℕ
  pub got : Bytes
  pub error : Option RingError
  pub ring : RingBuffer

module _ (size : ℕ) where
  unfoldable pub new_ring : RingBuffer
  new_ring = record { bytes = replicate size 0; write = 0; read = 0; closed = false }

  abbrev pub water_mark_high : ℕ
  water_mark_high = size * 85 / 100

  abbrev pub water_mark_low : ℕ
  water_mark_low = size * 50 / 100

  -- `copy(rb.data[write%size:], p)` and the advance of the counter
  abbrev pub copied : RingBuffer → Bytes → ℕ
  copied rb p = min (length p) (length rb.bytes - rb.write % size)

  unfoldable pub fill : RingBuffer → Bytes → RingBuffer
  fill rb p = record rb {
    bytes = copy_at rb.bytes (rb.write % size) p;
    write = rb.write + copied rb p;
  }

  -- `available < len(p)` is `size - (write - read) < len(p)`, free of subtraction.
  unfoldable pub write : RingBuffer → Bytes → Wrote
  write rb p =
      if rb.closed
      then record { count = 0; error = some eof; ring = rb }
      else if ltb (size + rb.read) (length p + rb.write)
      then record { count = copied rb p; error = some buffer_full; ring = fill rb p }
      else record { count = copied rb p; error = none; ring = fill rb p }

  -- `none` where the call goes on waiting for the condition variable.
  unfoldable pub read : RingBuffer → ℕ → Option Took
  read rb len_p =
      if leb rb.write rb.read
      then if rb.closed
        then some (record { count = 0; got = []; error = some eof; ring = rb })
        else none
      else let n = min len_p (length rb.bytes - rb.read % size) in
        some (record {
          count = n;
          got = take n (drop (rb.read % size) rb.bytes);
          error = none;
          ring = record rb { read = rb.read + n };
        })

  -- The one or two pieces that `TryRead` copies.
  unfoldable pub pieces : RingBuffer → ℕ → Bytes
  pieces rb n =
      let read_pos = rb.read % size in
      let space_before_wrap = size - read_pos in
      if leb n space_before_wrap
      then take n (drop read_pos rb.bytes)
      else take space_before_wrap (drop read_pos rb.bytes) ++ take (n - space_before_wrap) rb.bytes

  unfoldable pub try_read : RingBuffer → ℕ → Took
  try_read rb len_p =
      if leb rb.write rb.read
      then if rb.closed
        then record { count = 0; got = []; error = some eof; ring = rb }
        else record { count = 0; got = []; error = none; ring = rb }
      else let n = min len_p (rb.write - rb.read) in
        record {
          count = n;
          got = pieces rb n;
          error = none;
          ring = record rb { read = rb.read + n };
        }

  unfoldable pub available : RingBuffer → ℤ
  available rb = sub_ℕ rb.write rb.read

  unfoldable pub is_high : RingBuffer → Bool
  unfolding available
  is_high rb = leb_ℤ (pos water_mark_high) (available rb)

  unfoldable pub is_low : RingBuffer → Bool
  unfolding available
  is_low rb = leb_ℤ (available rb) (pos water_mark_low)

  unfoldable pub close : RingBuffer → RingBuffer
  close rb = record rb { closed = true }
