-- ===== src/Codec/RoundTrip.antt =====
-- `Serialize` and `Deserialize` of pkg/codec/frame.go undo one another.
use multi_terminal.Base.{
  ℕ, suc, ◌+◌, ◌*◌, ◌/◌, ◌%◌, ◌^◌, ◌≤◌, ◌<◌, ◌≡◌, refl, sym, ap, ◌∙◌, subst, List, [], ◌∷◌, ◌++◌,
  append_assoc, some, length, take, drop, length-append, take_of_append, drop_of_append, All, arith,
  le→ltb,
}
use multi_terminal.Base.Slices.{Bytes}
use multi_terminal.Base.Outcome.{ret}
use multi_terminal.Codec.{SessionBlock, Frame, ok, serialize, deserialize}
use multi_terminal.Codec.Grammar.{
  decode, prepend, encode_block, encode_blocks, encode, IsSized, IsBlock, IsFrame,
}
use multi_terminal.Codec.Write.{serialize-encode}
use multi_terminal.Codec.Read.{answer, deserialize-parse}

pub be32_value :
    (v : ℕ)
    → v < 2 ^ 32
    → ((v / 2 ^ 24 % 256 * 256 + v / 2 ^ 16 % 256) * 256 + v / 2 ^ 8 % 256) * 256 + v % 256 ≡ v
be32_value v h = omega arith

pub be16_value : (v : ℕ) → v < 65536 → v / 2 ^ 8 % 256 * 256 + v % 256 ≡ v
be16_value v h = omega arith

-- The reader takes one block off the front of its encoding.
decode-encode_block :
    (n : ℕ) (s : SessionBlock) (rest : Bytes)
    → IsBlock s
    → decode (suc n) (encode_block s ++ rest) ≡ prepend s (decode n rest)
unfolding decode
decode-encode_block n s rest h =
    rw (be32_value s.session_id h.id_fits, be16_value s.length h.length_fits)
      (rw (le→ltb _ _ fits, front, back))
  where
    fits : s.length ≤ length (s.bytes ++ rest)
    fits = omega (arith, h.sized, length-append s.bytes rest)

    front : take s.length (s.bytes ++ rest) ≡ s.bytes
    front =
        subst (λ k. take k (s.bytes ++ rest) ≡ s.bytes) (sym h.sized) (take_of_append s.bytes rest)

    back : drop s.length (s.bytes ++ rest) ≡ rest
    back = subst (λ k. drop k (s.bytes ++ rest) ≡ rest) (sym h.sized) (drop_of_append s.bytes rest)

pub decode-encode_blocks :
    (ss : List SessionBlock) (rest : Bytes)
    → All IsBlock ss
    → decode (length ss) (encode_blocks ss ++ rest) ≡ some (ss, rest)
decode-encode_blocks [] rest h = unfold decode in refl
decode-encode_blocks (s ∷ ss) rest h =
    ap (decode (suc (length ss))) (append_assoc (encode_block s) (encode_blocks ss) rest)
    ∙ decode-encode_block (length ss) s (encode_blocks ss ++ rest) h.0
    ∙ ap (prepend s) (decode-encode_blocks ss rest h.1)

pub All-IsSized : (ss : List SessionBlock) → All IsBlock ss → All IsSized ss
All-IsSized [] h = tt
All-IsSized (s ∷ ss) h = (h.0.sized, All-IsSized ss h.1)

pub deserialize-encode :
    (f : Frame) (rest : Bytes) → IsFrame f → deserialize (encode f ++ rest) ≡ ret (ok f)
deserialize-encode f rest h =
    deserialize-parse (encode f ++ rest)
    ∙ ap (λ o. ret (answer f.frame_type f.session_count o)) read
  where
    read : decode f.session_count (encode_blocks f.sessions ++ rest) ≡ some (f.sessions, rest)
    read =
        subst (λ k. decode k (encode_blocks f.sessions ++ rest) ≡ some (f.sessions, rest))
          (sym h.counted) (decode-encode_blocks f.sessions rest h.blocks)

-- A well-formed frame is serialized without a panic, and `Deserialize` gives it back from the bytes,
-- whatever follows them.
pub deserialize-serialize :
    (f : Frame) (rest : Bytes)
    → IsFrame f
    → (wire : Bytes) × (serialize f ≡ ret wire) × (deserialize (wire ++ rest) ≡ ret (ok f))
deserialize-serialize f rest h =
    (encode f, serialize-encode f (All-IsSized f.sessions h.blocks), deserialize-encode f rest h)
