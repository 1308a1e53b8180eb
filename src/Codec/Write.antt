-- ===== src/Codec/Write.antt =====
-- What `Serialize` of pkg/codec/frame.go writes.
use multi_terminal.Base.{
  ℕ, zero, suc, ◌+◌, ◌≤◌, ◌≡◌, refl, sym, ap, ◌∙◌, List, [], ◌∷◌, ◌++◌, append_assoc, append-nil,
  length, replicate, length-append, length-replicate, All, arith, le→ltb,
}
use native.Mathlib.Nat.{zero-add, suc-add}
use multi_terminal.Base.Slices.{Bytes, copy, copy_at, copy_at-append}
use multi_terminal.Base.Outcome.{ret}
use multi_terminal.Codec.{
  SessionBlock, Frame, be32, be16, put_byte, put_uint32, put_uint16, put_bytes, total_len,
  write_blocks, serialize,
}
use multi_terminal.Codec.Grammar.{encode_block, encode_blocks, encode, IsSized}

-- A write at `off` into a buffer that is `front`, then the room `old`, then `rest`.
module _ (front old rest : Bytes) {buf : Bytes} (shape : buf ≡ front ++ (old ++ rest)) {off : ℕ}
    (at_front : off ≡ length front) where
  room : (src : Bytes) → length old ≡ length src → off + length src ≤ length buf
  room src e =
      omega (arith, ap length shape, length-append front (old ++ rest), length-append old rest)

  written :
      (src : Bytes) {buf' : Bytes}
      → length old ≡ length src
      → buf' ≡ front ++ (src ++ rest)
      → copy_at buf off src ≡ buf'
  written src e e' = rw (at_front, shape, e') (copy_at-append front old src rest e)

  put_uint32_lem :
      (v : ℕ) {buf' : Bytes}
      → length old ≡ 4
      → buf' ≡ front ++ (be32 v ++ rest)
      → put_uint32 buf off v ≡ ret buf'
  unfolding put_uint32
  put_uint32_lem v e e' = rw (le→ltb _ _ (room (be32 v) e)) (ap ret (written (be32 v) e e'))

  put_uint16_lem :
      (v : ℕ) {buf' : Bytes}
      → length old ≡ 2
      → buf' ≡ front ++ (be16 v ++ rest)
      → put_uint16 buf off v ≡ ret buf'
  unfolding put_uint16
  put_uint16_lem v e e' = rw (le→ltb _ _ (room (be16 v) e)) (ap ret (written (be16 v) e e'))

  put_bytes_lem :
      (src : Bytes) {buf' : Bytes}
      → length old ≡ length src
      → buf' ≡ front ++ (src ++ rest)
      → put_bytes buf off src ≡ ret buf'
  unfolding put_bytes
  put_bytes_lem src e e' =
      let fits : off ≤ length buf = omega (arith, room src e) in
      rw (le→ltb _ _ fits) (ap ret (written src e e'))

abbrev zeros : ℕ → Bytes
zeros n = replicate n 0

zeros_add : (m n : ℕ) → zeros (m + n) ≡ zeros m ++ zeros n
zeros_add zero n = rw zero-add
zeros_add (suc m) n = rw suc-add (ap (◌∷◌ 0) (zeros_add m n))

-- The room that the blocks take.
abbrev size : List SessionBlock → ℕ
size [] = 0
size (s ∷ ss) = suc (suc (suc (suc (suc (suc (length s.bytes + size ss))))))

total_len-size : (total : ℕ) (ss : List SessionBlock) → total_len total ss ≡ total + size ss
unfolding total_len
total_len-size total [] = omega arith
total_len-size total (s ∷ ss) = omega (arith, total_len-size (total + (4 + 2 + length s.bytes)) ss)

-- One round of the loop. The offset goes on by `Length`.
write_block_step :
    (s : SessionBlock) (ss : List SessionBlock) (front : Bytes)
    → write_blocks (s ∷ ss) (length front) (front ++ zeros (size (s ∷ ss)))
      ≡ write_blocks ss
          (length front + 4 + 2 + s.length)
          ((front ++ encode_block s) ++ zeros (size ss))
unfolding write_blocks
write_block_step s ss front = rw (first, second, third) refl
  where
    id : ℕ
    id = s.session_id

    room : Bytes
    room = zeros (length s.bytes + size ss)

    first :
        put_uint32 (front ++ zeros (size (s ∷ ss))) (length front) id
        ≡ ret (front ++ (be32 id ++ (0 ∷ 0 ∷ room)))
    first = put_uint32_lem front (zeros 4) (0 ∷ 0 ∷ room) refl refl id refl refl

    second :
        put_uint16 (front ++ (be32 id ++ (0 ∷ 0 ∷ room))) (length front + 4) s.length
        ≡ ret (front ++ (be32 id ++ (be16 s.length ++ room)))
    second =
        put_uint16_lem (front ++ be32 id) (zeros 2) room (sym (append_assoc front (be32 id) _))
          (omega (arith, length-append front (be32 id))) s.length refl
          (sym (append_assoc front (be32 id) _))

    third :
        put_bytes (front ++ (be32 id ++ (be16 s.length ++ room))) (length front + 4 + 2) s.bytes
        ≡ ret ((front ++ encode_block s) ++ zeros (size ss))
    third =
        put_bytes_lem (front ++ (be32 id ++ be16 s.length)) (zeros (length s.bytes))
          (zeros (size ss)) (rw zeros_add (sym (append_assoc front _ _)))
          (omega (arith, length-append front (be32 id ++ be16 s.length))) s.bytes
          (length-replicate _ 0) (simp append_assoc)

write_blocks_step :
    (s : SessionBlock) (ss : List SessionBlock) (front : Bytes)
    → IsSized s
    → write_blocks (s ∷ ss) (length front) (front ++ zeros (size (s ∷ ss)))
      ≡ write_blocks ss
          (length (front ++ encode_block s))
          ((front ++ encode_block s) ++ zeros (size ss))
write_blocks_step s ss front h =
    write_block_step s ss front
    ∙ ap (λ off. write_blocks ss off ((front ++ encode_block s) ++ zeros (size ss))) next
  where
    next : length front + 4 + 2 + s.length ≡ length (front ++ encode_block s)
    next = omega (arith, length-append front (encode_block s))

-- `write_blocks` puts the blocks behind `front`, if the zeroed room behind it is theirs.
write_blocks_lem :
    (ss : List SessionBlock) (front : Bytes)
    → All IsSized ss
    → write_blocks ss (length front) (front ++ zeros (size ss)) ≡ ret (front ++ encode_blocks ss)
write_blocks_lem [] front h = unfold write_blocks in refl
write_blocks_lem (s ∷ ss) front h =
    write_blocks_step s ss front h.0
    ∙ write_blocks_lem ss (front ++ encode_block s) h.1
    ∙ ap ret (append_assoc front (encode_block s) (encode_blocks ss))

put_byte_first : (a v : ℕ) (rest : Bytes) → put_byte (a ∷ rest) 0 v ≡ ret (v ∷ copy rest [])
unfolding put_byte
put_byte_first a v rest = ground arith

put_byte_second :
    (a b v : ℕ) (rest : Bytes) → put_byte (a ∷ b ∷ rest) 1 v ≡ ret (a ∷ v ∷ copy rest [])
unfolding put_byte
put_byte_second a b v rest = ground arith

copy_nothing : (buf : Bytes) → copy buf [] ≡ buf
copy_nothing [] = refl
copy_nothing (b ∷ buf) = refl

-- `Serialize` up to its second loop.
serialize-write_blocks :
    (f : Frame)
    → serialize f
      ≡ write_blocks f.sessions 2 (f.frame_type ∷ f.session_count ∷ zeros (size f.sessions))
unfolding serialize
serialize-write_blocks f =
    rw
      (
        total_len-size 2 f.sessions,
        two,
        put_byte_first,
        copy_nothing,
        put_byte_second,
        copy_nothing,
      )
      refl
  where
    two : 2 + size f.sessions ≡ suc (suc (size f.sessions))
    two = omega arith

-- If every block's `Length` is the number of its bytes, `Serialize` does not panic, and writes the
-- type, the announced count and then the blocks as the wire format has them.
pub serialize-encode : (f : Frame) → All IsSized f.sessions → serialize f ≡ ret (encode f)
serialize-encode f h =
    serialize-write_blocks f ∙ write_blocks_lem f.sessions (f.frame_type ∷ f.session_count ∷ []) h

-- A frame with one block is written whole, whatever its `Length` says.
pub serialize_one :
    (t n : ℕ) (s : SessionBlock)
    → serialize (record { frame_type = t; session_count = n; sessions = s ∷ [] })
      ≡ ret (t ∷ n ∷ encode_block s)
serialize_one t n s =
    serialize-write_blocks (record { frame_type = t; session_count = n; sessions = s ∷ [] })
    ∙ write_block_step s [] (t ∷ n ∷ [])
    ∙ last
  where
    last :
        write_blocks [] (2 + 4 + 2 + s.length) ((t ∷ n ∷ encode_block s) ++ zeros 0)
        ≡ ret (t ∷ n ∷ encode_block s)
    last = unfold write_blocks in ap ret (append-nil (t ∷ n ∷ encode_block s))
