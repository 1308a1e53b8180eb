-- ===== src/Codec/Grammar.antt =====
-- The wire format that pkg/codec/frame.go implements, described without offsets and buffers.
use multi_terminal.Base.{
  ℕ, zero, suc, ◌+◌, ◌*◌, ◌^◌, ◌<◌, ◌≡◌, List, [], ◌∷◌, ◌++◌, Option, none, some, if◌then◌else◌,
  ltb, length, take, drop, All,
}
use multi_terminal.Base.Slices.{Bytes}
use multi_terminal.Codec.{SessionBlock, Frame, be32, be16}

-- What a block and a frame look like on the wire.
abbrev pub encode_block : SessionBlock → Bytes
encode_block s = be32 s.session_id ++ (be16 s.length ++ s.bytes)

abbrev pub encode_blocks : List SessionBlock → Bytes
encode_blocks [] = []
encode_blocks (s ∷ ss) = encode_block s ++ encode_blocks ss

abbrev pub encode : Frame → Bytes
encode f = f.frame_type ∷ f.session_count ∷ encode_blocks f.sessions

-- The field `Length` says how many bytes the block has.
abbrev pub IsSized : SessionBlock → Type 0
IsSized s = s.length ≡ length s.bytes

-- A block whose fields fit their machine types.
pub record IsBlock (s : SessionBlock) : Type 0 where
  pub sized : IsSized s
  pub id_fits : s.session_id < 2 ^ 32
  pub length_fits : s.length < 65536

-- A frame that announces the blocks that it has.
pub record IsFrame (f : Frame) : Type 0 where
  pub counted : f.session_count ≡ length f.sessions
  pub blocks : All IsBlock f.sessions

abbrev pub IsByte : ℕ → Type 0
IsByte b = b < 256

-- A block in front of the blocks that were read behind it.
abbrev pub prepend :
    SessionBlock → Option (List SessionBlock × Bytes) → Option (List SessionBlock × Bytes)
prepend s none = none
prepend s (some (ss, rest)) = some (s ∷ ss, rest)

-- Reads a number of blocks off the front of a text, and gives what is left.
unfoldable pub decode : ℕ → Bytes → Option (List SessionBlock × Bytes)
decode zero r = some ([], r)
decode (suc n) (a ∷ b ∷ c ∷ d ∷ e ∷ f ∷ r) =
    let s : SessionBlock = record {
      session_id = ((a * 256 + b) * 256 + c) * 256 + d;
      length = e * 256 + f;
      bytes = take (e * 256 + f) r;
    } in
    let more = prepend s (decode n (drop s.length r)) in
    if ltb (length r) s.length then none else more
decode (suc n) _ = none
