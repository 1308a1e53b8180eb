-- ===== src/Codec/Sound.antt =====
-- What `Deserialize` of pkg/codec/frame.go accepts, and what it refuses.
use multi_terminal.Base.{
  ℕ, zero, suc, ◌+◌, ◌*◌, ◌/◌, ◌%◌, ◌^◌, ◌≤◌, ◌≡◌, refl, sym, ap, ◌∙◌, subst, List, [], ◌∷◌, ◌++◌,
  append_assoc, append-nil, Bool, true, false, Option, none, some, length, take, drop,
  length-append, length-take, take-append-drop, All, All-drop, arith, ltb, ltb→le, if◌then◌else◌,
  Option-cases, inl, inr,
}
use multi_terminal.Base.Slices.{Bytes}
use multi_terminal.Base.Outcome.{ret}
use multi_terminal.Codec.{SessionBlock, Frame, ok, err, buffer_too_small, serialize, deserialize}
use multi_terminal.Codec.Grammar.{
  decode, prepend, encode_block, encode_blocks, encode, IsBlock, IsFrame, IsByte,
}
use multi_terminal.Codec.Write.{serialize-encode}
use multi_terminal.Codec.Read.{parse, answer, deserialize-parse}
use multi_terminal.Codec.RoundTrip.{decode-encode_blocks, All-IsSized}

prepend-some :
    (s : SessionBlock) (o : Option (List SessionBlock × Bytes)) {ss : List SessionBlock}
    {rest : Bytes}
    → prepend s o ≡ some (ss, rest)
    → (more : List SessionBlock) × (ss ≡ s ∷ more) × (o ≡ some (more, rest))
prepend-some s none h = cc
prepend-some s (some (more, rest')) h = (more, ground arith, ground arith)

guard_some {ℓ} :
    {A : Type ℓ} (b : Bool) (o : Option A) {x : A}
    → (if b then none else o) ≡ some x
    → (b ≡ false) × (o ≡ some x)
guard_some true o h = cc
guard_some false o h = (refl, h)

-- A text with a header, as the reader sees its first block.
module _ (a b c d e f : ℕ) (r : Bytes) where
  first : SessionBlock
  first = record {
    session_id = ((a * 256 + b) * 256 + c) * 256 + d;
    length = e * 256 + f;
    bytes = take (e * 256 + f) r;
  }

  decode-some :
      (n : ℕ) {ss : List SessionBlock} {rest : Bytes}
      → decode (suc n) (a ∷ b ∷ c ∷ d ∷ e ∷ f ∷ r) ≡ some (ss, rest)
      → (more : List SessionBlock) × (e * 256 + f ≤ length r)
        × (ss ≡ first ∷ more)
        × (decode n (drop (e * 256 + f) r) ≡ some (more, rest))
  unfolding decode first
  decode-some n h =
      let (long, inner) = guard_some (ltb (length r) (e * 256 + f)) _ h in
      let (more, split, tail) = prepend-some first (decode n (drop (e * 256 + f) r)) inner in
      (more, ltb→le _ _ long, split, tail)

  first-IsBlock : e * 256 + f ≤ length r → All IsByte (a ∷ b ∷ c ∷ d ∷ e ∷ f ∷ r) → IsBlock first
  unfolding first
  first-IsBlock long (ha, (hb, (hc, (hd, (he, (hf, hr)))))) = record {
    sized = omega (arith, length-take (e * 256 + f) r);
    id_fits = omega arith;
    length_fits = omega arith;
  }

  encode_first :
      (tail : Bytes)
      → All IsByte (a ∷ b ∷ c ∷ d ∷ e ∷ f ∷ r)
      → drop (e * 256 + f) r ≡ tail
      → a ∷ b ∷ c ∷ d ∷ e ∷ f ∷ r ≡ encode_block first ++ tail
  unfolding first
  encode_first tail (ha, (hb, (hc, (hd, (he, (hf, hr)))))) split =
      rw (ea, eb, ec, ed, ee, ef) (ap (λ x. a ∷ b ∷ c ∷ d ∷ e ∷ f ∷ x) whole)
    where
      id : ℕ
      id = ((a * 256 + b) * 256 + c) * 256 + d

      ea : id / 2 ^ 24 % 256 ≡ a
      ea = omega arith

      eb : id / 2 ^ 16 % 256 ≡ b
      eb = omega arith

      ec : id / 2 ^ 8 % 256 ≡ c
      ec = omega arith

      ed : id % 256 ≡ d
      ed = omega arith

      ee : (e * 256 + f) / 2 ^ 8 % 256 ≡ e
      ee = omega arith

      ef : (e * 256 + f) % 256 ≡ f
      ef = omega arith

      whole : r ≡ take (e * 256 + f) r ++ tail
      whole = sym (take-append-drop (e * 256 + f) r) ∙ ap (λ x. take (e * 256 + f) r ++ x) split

-- What a reading of `n` blocks off `r` tells of `r`.
record Reading (n : ℕ) (r : Bytes) (ss : List SessionBlock) (rest : Bytes) : Type 0 where
  whole : r ≡ encode_blocks ss ++ rest
  count : length ss ≡ n
  blocks : All IsBlock ss

decode-Reading :
    (n : ℕ) (r : Bytes) {ss : List SessionBlock} {rest : Bytes}
    → All IsByte r
    → decode n r ≡ some (ss, rest)
    → Reading n r ss rest
decode-Reading zero r {ss} {rest} bs h =
    unfold decode in
    record { whole = ground arith; count = ground arith; blocks = subst (All IsBlock) nothing tt }
  where
    nothing : [] ≡ ss
    nothing = unfold decode in ground arith
decode-Reading (suc n) (a ∷ b ∷ c ∷ d ∷ e ∷ f ∷ r) {ss} {rest} bs h =
    let (more, long, split, tail) = decode-some a b c d e f r n h in
    let later : All IsByte (drop (e * 256 + f) r) =
      All-drop IsByte (e * 256 + f) r bs.1.1.1.1.1.1 in
    let ih = decode-Reading n (drop (e * 256 + f) r) later tail in
    record {
      whole =
          encode_first a b c d e f r (encode_blocks more ++ rest) bs ih.whole
          ∙ sym (append_assoc (encode_block (first a b c d e f r)) (encode_blocks more) rest)
          ∙ ap (λ l. encode_blocks l ++ rest) (sym split);
      count = ap length split ∙ ap suc ih.count;
      blocks = subst (All IsBlock) (sym split) (first-IsBlock a b c d e f r long bs, ih.blocks);
    }
decode-Reading (suc n) _ bs h = unfold decode in cc

answer_ok :
    (t n : ℕ) (o : Option (List SessionBlock × Bytes)) {f : Frame}
    → answer t n o ≡ ok f
    → (ss : List SessionBlock) × (rest : Bytes) × (o ≡ some (ss, rest))
      × (f ≡ record { frame_type = t; session_count = n; sessions = ss })
answer_ok t n none h = cc
answer_ok t n (some (ss, rest)) h = (ss, rest, refl, ground arith)

ret-injective {ℓ} : {A : Type ℓ} {x y : A} → ret x ≡ ret y → x ≡ y
ret-injective e = cc

-- Whatever bytes `Deserialize` accepts, the frame it returns is well formed: it has the announced
-- number of blocks, every block has `Length` bytes, and the fields fit their types. `Serialize` of
-- that frame writes, without a panic, bytes with which the input begins.
pub deserialize_sound :
    (input : Bytes) (f : Frame)
    → All IsByte input
    → deserialize input ≡ ret (ok f)
    → IsFrame f × ((wire rest : Bytes) × (serialize f ≡ ret wire) × (input ≡ wire ++ rest))
deserialize_sound input f bs h = sound input bs (ret-injective (sym (deserialize-parse input) ∙ h))
  where
    sound :
        (r : Bytes)
        → All IsByte r
        → parse r ≡ ok f
        → IsFrame f × ((wire rest : Bytes) × (serialize f ≡ ret wire) × (r ≡ wire ++ rest))
    sound (t ∷ n ∷ r) bs h =
        let (ss, rest, got, shape) = answer_ok t n (decode n r) h in
        let reading = decode-Reading n r bs.1.1 got in
        rw shape (
          record { counted = sym reading.count; blocks = reading.blocks },
          (
            t ∷ n ∷ encode_blocks ss,
            rest,
            serialize-encode (record { frame_type = t; session_count = n; sessions = ss })
                (All-IsSized ss reading.blocks),
            ap (λ l. t ∷ n ∷ l) reading.whole,
          ),
        )
    sound _ bs h = cc

-- A reading does not depend on what follows.
decode-append :
    (n : ℕ) (r more : Bytes) {ss : List SessionBlock} {rest : Bytes}
    → All IsByte r
    → decode n r ≡ some (ss, rest)
    → decode n (r ++ more) ≡ some (ss, rest ++ more)
decode-append n r more {ss} {rest} bs h =
    let reading = decode-Reading n r bs h in
    rw (reading.whole, append_assoc (encode_blocks ss) rest more, ← reading.count)
      (decode-encode_blocks ss (rest ++ more) reading.blocks)

-- A reading of a proper prefix cannot succeed where the whole is read with nothing left.
prefix_unread :
    (ss got : List SessionBlock) (r rest tail : Bytes) (x : ℕ)
    → All IsBlock ss
    → All IsByte r
    → encode_blocks ss ≡ r ++ (x ∷ tail)
    → ¬ (decode (length ss) r ≡ some (got, rest))
prefix_unread ss got r rest tail x h bs e read =
    absurd (omega (arith, ap length left, length-append rest (x ∷ tail)))
  where
    both :
        ◌≡◌ {A = Option (List SessionBlock × Bytes)}
          (some (ss, []))
          (some (got, rest ++ (x ∷ tail)))
    both =
        sym (decode-encode_blocks ss [] h)
        ∙ ap (decode (length ss)) (append-nil (encode_blocks ss) ∙ e)
        ∙ decode-append (length ss) r (x ∷ tail) bs read

    left : [] ≡ rest ++ (x ∷ tail)
    left = cc both

-- `Deserialize` answers ErrBufferTooSmall on every proper prefix of what `Serialize` writes for a
-- well-formed frame of bytes.
pub deserialize_truncated :
    (f : Frame) (front tail : Bytes) (x : ℕ)
    → IsFrame f
    → All IsByte front
    → serialize f ≡ ret (front ++ (x ∷ tail))
    → deserialize front ≡ ret (err buffer_too_small)
deserialize_truncated f front tail x h bs wire =
    deserialize-parse front ∙ ap ret (cut front bs whole)
  where
    whole : encode f ≡ front ++ (x ∷ tail)
    whole = ret-injective (sym (serialize-encode f (All-IsSized f.sessions h.blocks)) ∙ wire)

    cut : (r : Bytes) → All IsByte r → encode f ≡ r ++ (x ∷ tail) → parse r ≡ err buffer_too_small
    cut [] bs e = refl
    cut (t ∷ []) bs e = refl
    cut (t ∷ n ∷ r) bs e = elim (Option-cases (decode n r)) [
      | inl short ↦ ap (answer t n) short
      | inr ((ss, rest), read) ↦ absurd (
          prefix_unread f.sessions ss r rest tail x h.blocks bs.1.1 (blocks e)
            (subst (λ k. decode k r ≡ some (ss, rest)) (sym (count e) ∙ h.counted) read))
    ]
      where
        count : encode f ≡ t ∷ n ∷ (r ++ (x ∷ tail)) → f.session_count ≡ n
        count e = cc

        blocks : encode f ≡ t ∷ n ∷ (r ++ (x ∷ tail)) → encode_blocks f.sessions ≡ r ++ (x ∷ tail)
        blocks e = cc
