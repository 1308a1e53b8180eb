-- ===== src/Codec.antt =====
-- gateway/pkg/codec/frame.go: the binary frames between gateway and browser.
-- A byte slice is a list of numbers. Indexing and slicing out of range is Go's panic. `int` offsets
-- do not wrap: they are bounded by the length of a slice.
pub mod Grammar
pub mod Write
pub mod Read
pub mod RoundTrip
pub mod Sound
pub mod Univalent
mod Tests
use multi_terminal.Base.{
  ℕ, zero, suc, ◌+◌, ◌*◌, ◌/◌, ◌%◌, ◌^◌, List, [], ◌∷◌, ◌++◌, ltb, if◌then◌else◌, length, take,
  drop, replicate,
}
use multi_terminal.Base.Slices.{Bytes, copy, copy_at}
use multi_terminal.Base.Outcome.{Outcome, ret, panic, ◌>>=◌}

-- `uint16(n)` and `uint8(n)`
abbrev pub uint16 : ℕ → ℕ
uint16 n = n % 65536

abbrev pub uint8 : ℕ → ℕ
uint8 n = n % 256

abbrev pub frame_type_heartbeat : ℕ
frame_type_heartbeat = 0x01

abbrev pub frame_type_terminal_output : ℕ
frame_type_terminal_output = 0x02

abbrev pub frame_type_terminal_input : ℕ
frame_type_terminal_input = 0x03

abbrev pub frame_type_window_resize : ℕ
frame_type_window_resize = 0x04

abbrev pub frame_type_session_control : ℕ
frame_type_session_control = 0x05

-- `Length` is a field of its own, and nothing ties it to `len(Data)`.
pub record SessionBlock : Type 0 where
  pub session_id : ℕ
  pub length : ℕ
  pub bytes : Bytes

pub record Frame : Type 0 where
  pub frame_type : ℕ
  pub session_count : ℕ
  pub sessions : List SessionBlock

pub data FrameError : Type 0 where
  buffer_too_small invalid_frame : FrameError

pub data Parsed {ℓ} (A : Type ℓ) : Type ℓ where
  ok : A → Parsed A
  err : FrameError → Parsed A

-- `buf[i] = v`
pub put_byte : Bytes → ℕ → ℕ → Outcome Bytes
put_byte buf i v = if ltb i (length buf) then ret (copy_at buf i (v ∷ [])) else panic

-- The bytes that `binary.BigEndian.PutUint32` and `PutUint16` write.
abbrev pub be32 : ℕ → Bytes
be32 v = (v / 2 ^ 24 % 256) ∷ (v / 2 ^ 16 % 256) ∷ (v / 2 ^ 8 % 256) ∷ (v % 256) ∷ []

abbrev pub be16 : ℕ → Bytes
be16 v = (v / 2 ^ 8 % 256) ∷ (v % 256) ∷ []

-- `binary.BigEndian.PutUint32(buf[off:], v)` panics where fewer than four bytes are left.
pub put_uint32 : Bytes → ℕ → ℕ → Outcome Bytes
put_uint32 buf off v = if ltb (length buf) (off + 4) then panic else ret (copy_at buf off (be32 v))

pub put_uint16 : Bytes → ℕ → ℕ → Outcome Bytes
put_uint16 buf off v = if ltb (length buf) (off + 2) then panic else ret (copy_at buf off (be16 v))

-- `copy(buf[off:], src)`
pub put_bytes : Bytes → ℕ → Bytes → Outcome Bytes
put_bytes buf off src = if ltb (length buf) off then panic else ret (copy_at buf off src)

-- The first loop of `Serialize`, from the length of the header on.
unfoldable pub total_len : ℕ → List SessionBlock → ℕ
total_len total [] = total
total_len total (s ∷ ss) = total_len (total + (4 + 2 + length s.bytes)) ss

-- Its second loop. The offset advances by the field `Length`, not by the bytes that were copied.
unfoldable pub write_blocks : List SessionBlock → ℕ → Bytes → Outcome Bytes
write_blocks [] offset buf = ret buf
write_blocks (s ∷ ss) offset buf = do
  buf₁ ← put_uint32 buf offset s.session_id
  buf₂ ← put_uint16 buf₁ (offset + 4) s.length
  buf₃ ← put_bytes buf₂ (offset + 4 + 2) s.bytes
  write_blocks ss (offset + 4 + 2 + s.length) buf₃

unfoldable pub serialize : Frame → Outcome Bytes
serialize f = do
  let buf = replicate (total_len 2 f.sessions) 0
  buf₁ ← put_byte buf 0 f.frame_type
  buf₂ ← put_byte buf₁ 1 f.session_count
  write_blocks f.sessions 2 buf₂

-- `data[i]`
byte_at : Bytes → ℕ → Outcome ℕ
byte_at [] i = panic
byte_at (b ∷ bs) zero = ret b
byte_at (b ∷ bs) (suc i) = byte_at bs i

-- `binary.BigEndian.Uint32` and `Uint16` of a slice
uint32 : Bytes → Outcome ℕ
uint32 (a ∷ b ∷ c ∷ d ∷ _) = ret (((a * 256 + b) * 256 + c) * 256 + d)
uint32 _ = panic

uint16_of : Bytes → Outcome ℕ
uint16_of (a ∷ b ∷ _) = ret (a * 256 + b)
uint16_of _ = panic

-- `data[lo:lo+n]`, refused past the length, although Go allows it up to the capacity.
slice : Bytes → ℕ → ℕ → Outcome Bytes
slice bs lo n = if ltb (length bs) (lo + n) then panic else ret (take n (drop lo bs))

-- The loop of `Deserialize`; the first number is `sessionCount - i`.
pub read_blocks : Bytes → ℕ → ℕ → List SessionBlock → Outcome (Parsed (List SessionBlock))
read_blocks input zero offset sessions = ret (ok sessions)
read_blocks input (suc rounds) offset sessions =
    if ltb (length input) (offset + 6) then ret (err buffer_too_small) else do
      session_id ← uint32 (drop offset input)
      len ← uint16_of (drop (offset + 4) input)
      if ltb (length input) (offset + 4 + 2 + len) then ret (err buffer_too_small) else do
        body ← slice input (offset + 4 + 2) len
        let session : SessionBlock = record {
          session_id = session_id;
          length = len;
          bytes = copy (replicate len 0) body;
        }
        read_blocks input rounds (offset + 4 + 2 + len) (sessions ++ session ∷ [])

-- The frame, or the error of the loop.
finish : ℕ → ℕ → Parsed (List SessionBlock) → Parsed Frame
finish t n (ok sessions) = ok (record { frame_type = t; session_count = n; sessions = sessions })
finish t n (err e) = err e

pub deserialize : Bytes → Outcome (Parsed Frame)
deserialize input = if ltb (length input) 2 then ret (err buffer_too_small) else do
  frame_type ← byte_at input 0
  session_count ← byte_at input 1
  result ← read_blocks input session_count 2 []
  ret (finish frame_type session_count result)
