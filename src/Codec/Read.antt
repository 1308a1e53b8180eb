-- ===== src/Codec/Read.antt =====
-- What `Deserialize` of pkg/codec/frame.go reads: the wire format's own reader, and no panic.
use multi_terminal.Base.{
  ℕ, zero, suc, ◌+◌, ◌*◌, ◌≤◌, ◌<◌, ◌≡◌, refl, sym, ap, ◌∙◌, List, [], ◌∷◌, ◌++◌, append_assoc,
  append-nil, Option, none, some, length, replicate, take, drop, length-replicate, length-take,
  length-drop, drop-drop, ltb, arith, le→ltb, lt→ltb, ltb→lt, ltb→le, subst, tests, Bool-cases, inl,
  inr,
}
use multi_terminal.Base.Slices.{Bytes, copy, copy-append}
use multi_terminal.Base.Outcome.{Outcome, ret, ◌>>=◌}
use multi_terminal.Codec.{
  SessionBlock, Frame, Parsed, ok, err, buffer_too_small, read_blocks, deserialize, slice, uint32,
  uint16_of, byte_at, finish,
}
use multi_terminal.Codec.Grammar.{decode, prepend}

-- A text of six bytes or more, taken apart.
record Header (r : Bytes) : Type 0 where
  a : ℕ
  b : ℕ
  c : ℕ
  d : ℕ
  e : ℕ
  f : ℕ
  rest : Bytes
  shape : r ≡ a ∷ b ∷ c ∷ d ∷ e ∷ f ∷ rest

Header-of : (r : Bytes) → 6 ≤ length r → Header r
Header-of (a ∷ b ∷ c ∷ d ∷ e ∷ f ∷ rest) h = record {
  a = a;
  b = b;
  c = c;
  d = d;
  e = e;
  f = f;
  rest = rest;
  shape = refl;
}
Header-of _ h = absurd (omega arith)

decode_short : (n : ℕ) (r : Bytes) → length r < 6 → decode (suc n) r ≡ none
unfolding decode
decode_short n (a ∷ b ∷ c ∷ d ∷ e ∷ f ∷ rest) h = absurd (omega arith)
decode_short n _ h = refl

-- The blocks of a decoding behind those read before, or the one error of the loop.
pub outcome_of :
    List SessionBlock → Option (List SessionBlock × Bytes) → Outcome (Parsed (List SessionBlock))
outcome_of before none = ret (err buffer_too_small)
outcome_of before (some (ss, rest)) = ret (ok (before ++ ss))

outcome_of-prepend :
    (before : List SessionBlock) (s : SessionBlock) (o : Option (List SessionBlock × Bytes))
    → outcome_of (before ++ s ∷ []) o ≡ outcome_of before (prepend s o)
unfolding outcome_of
outcome_of-prepend before s none = refl
outcome_of-prepend before s (some (ss, rest)) =
    ap (λ l. ret (ok l)) (append_assoc before (s ∷ []) ss)

-- `make` and `copy` of as many bytes as there are.
copy_fresh : (src : Bytes) (n : ℕ) → length src ≡ n → copy (replicate n 0) src ≡ src
copy_fresh src n e =
    let zeros : Bytes = replicate n 0 in
    let same : length zeros ≡ length src = length-replicate n 0 ∙ sym e in
    subst (λ z. copy z src ≡ src) (append-nil zeros)
      (copy-append zeros src [] same ∙ append-nil src)

-- One round on a text whose header is there.
six : (n : ℕ) → n + 4 + 2 ≡ n + 6
six n = omega arith

module _ (input : Bytes) (offset : ℕ) (h : Header (drop offset input)) where
  open h use {a, b, c, d, e, f, rest, shape}

  block : SessionBlock
  block = record {
    session_id = ((a * 256 + b) * 256 + c) * 256 + d;
    length = e * 256 + f;
    bytes = take (e * 256 + f) rest;
  }

  drop_further : (k : ℕ) → drop (offset + k) input ≡ drop k (a ∷ b ∷ c ∷ d ∷ e ∷ f ∷ rest)
  drop_further k = sym (drop-drop offset k input) ∙ ap (drop k) shape

  length_input : offset ≤ length input → length input ≡ offset + 6 + length rest
  length_input le = omega (arith, ap length shape, length-drop offset input)

  rest_at : drop (offset + 4 + 2) input ≡ rest
  rest_at = ap (λ k. drop k input) (six offset) ∙ drop_further 6

  slice_lem :
      offset ≤ length input
      → e * 256 + f ≤ length rest
      → slice input (offset + 4 + 2) (e * 256 + f) ≡ ret (take (e * 256 + f) rest)
  unfolding slice
  slice_lem le fits = rw (rest_at, le→ltb _ _ inside)
    where
      inside : offset + 4 + 2 + (e * 256 + f) ≤ length input
      inside = omega (arith, length_input le)

  read_blocks_step :
      (n : ℕ) (before : List SessionBlock)
      → offset ≤ length input
      → e * 256 + f ≤ length rest
      → read_blocks input (suc n) offset before
        ≡ read_blocks input n (offset + 4 + 2 + (e * 256 + f)) (before ++ block ∷ [])
  unfolding read_blocks uint32 uint16_of block
  read_blocks_step n before le fits = rw (
    le→ltb _ _ header_inside,
    shape,
    drop_further 4,
    le→ltb _ _ body_inside,
    slice_lem le fits,
    copy_fresh (take (e * 256 + f) rest) (e * 256 + f) enough,
  )
    where
      header_inside : offset + 6 ≤ length input
      header_inside = omega (arith, length_input le)

      body_inside : offset + 4 + 2 + (e * 256 + f) ≤ length input
      body_inside = omega (arith, length_input le)

      enough : length (take (e * 256 + f) rest) ≡ e * 256 + f
      enough = omega (arith, length-take (e * 256 + f) rest)

  read_blocks_cut :
      (n : ℕ) (before : List SessionBlock)
      → offset ≤ length input
      → length rest < e * 256 + f
      → read_blocks input (suc n) offset before ≡ ret (err buffer_too_small)
  unfolding read_blocks uint32 uint16_of
  read_blocks_cut n before le cut =
      rw (le→ltb _ _ header_inside, shape, drop_further 4, lt→ltb _ _ body_outside)
    where
      header_inside : offset + 6 ≤ length input
      header_inside = omega (arith, length_input le)

      body_outside : length input < offset + 4 + 2 + (e * 256 + f)
      body_outside = omega (arith, length_input le)

  decode_cut : (n : ℕ) → length rest < e * 256 + f → decode (suc n) (drop offset input) ≡ none
  unfolding decode
  decode_cut n cut = rw (shape, lt→ltb _ _ cut)

  decode_step :
      (n : ℕ)
      → e * 256 + f ≤ length rest
      → decode (suc n) (drop offset input)
        ≡ prepend block (decode n (drop (offset + 4 + 2 + (e * 256 + f)) input))
  unfolding decode block
  decode_step n fits = rw (shape, le→ltb _ _ fits, further)
    where
      further : drop (offset + 4 + 2 + (e * 256 + f)) input ≡ drop (e * 256 + f) rest
      further =
          sym (drop-drop (offset + 4 + 2) (e * 256 + f) input) ∙ ap (drop (e * 256 + f)) rest_at

-- The loop from an offset on does what the format's reader does on the rest of the text.
abbrev Agrees : ℕ → Bytes → Type 0
Agrees n input =
    (offset : ℕ) (before : List SessionBlock)
    → offset ≤ length input
    → read_blocks input n offset before ≡ outcome_of before (decode n (drop offset input))

Agrees-Header :
    (n : ℕ) (input : Bytes)
    → Agrees n input
    → (offset : ℕ) (before : List SessionBlock) → offset ≤ length input
    → Header (drop offset input)
    → read_blocks input (suc n) offset before
      ≡ outcome_of before (decode (suc n) (drop offset input))
Agrees-Header n input again offset before le h =
    elim (Bool-cases (ltb (length h.rest) (h.e * 256 + h.f))) [
      | inl cut ↦
          read_blocks_cut input offset h n before le (ltb→lt _ _ cut)
          ∙ rw (decode_cut input offset h n (ltb→lt _ _ cut)) (unfold outcome_of in refl)
      | inr fits ↦
          let in_rest : h.e * 256 + h.f ≤ length h.rest = ltb→le _ _ fits in
          read_blocks_step input offset h n before le in_rest
          ∙ again _ _ (omega (arith, length_input input offset h le))
          ∙ outcome_of-prepend before (block input offset h) _
          ∙ ap (outcome_of before) (sym (decode_step input offset h n in_rest))
    ]

pub read_blocks-decode : (n : ℕ) (input : Bytes) → Agrees n input
read_blocks-decode zero input offset before le =
    unfold read_blocks decode outcome_of in ap (λ l. ret (ok l)) (sym (append-nil before))
read_blocks-decode (suc n) input offset before le =
    elim (Bool-cases (ltb (length input) (offset + 6))) [
      | inl cut ↦
          rw (decode_short n (drop offset input) (omega (tests, length-drop offset input)))
            (unfold read_blocks outcome_of in rw cut)
      | inr there ↦ Agrees-Header n input (read_blocks-decode n input) offset before le (
          Header-of (drop offset input) (omega (arith, ltb→le _ _ there, length-drop offset input)))
    ]

-- What `Deserialize` returns for the reader's answer behind the two bytes of the header.
abbrev pub answer : ℕ → ℕ → Option (List SessionBlock × Bytes) → Parsed Frame
answer t n none = err buffer_too_small
answer t n (some (ss, rest)) = ok (record { frame_type = t; session_count = n; sessions = ss })

-- What the wire format makes of a text.
abbrev pub parse : Bytes → Parsed Frame
parse (t ∷ n ∷ rest) = answer t n (decode n rest)
parse _ = err buffer_too_small

answer_lem :
    (t n : ℕ) (o : Option (List SessionBlock × Bytes))
    → (outcome_of [] o >>= λ r. ret (finish t n r)) ≡ ret (answer t n o)
unfolding outcome_of finish
answer_lem t n none = refl
answer_lem t n (some (ss, rest)) = refl

-- `Deserialize` returns on every text, with no access out of range, what the wire format makes of
-- it: the announced blocks of a complete text, and ErrBufferTooSmall for any other.
pub deserialize-parse : (input : Bytes) → deserialize input ≡ ret (parse input)
unfolding deserialize byte_at
deserialize-parse [] = refl
deserialize-parse (t ∷ []) = refl
deserialize-parse (t ∷ n ∷ rest) =
    rw (le→ltb _ _ two, read_blocks-decode n (t ∷ n ∷ rest) 2 [] two)
      (answer_lem t n (decode n rest))
  where
    two : 2 ≤ length (t ∷ n ∷ rest)
    two = omega arith
