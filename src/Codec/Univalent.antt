-- ===== src/Codec/Univalent.antt =====
-- Frames and wire texts as types (pkg/codec/frame.go).
use mathlib.Core.HLevel.{Σ_prop_path, ×_prop}
use native.Mathlib.Bridge.{le_prop}
use native.Mathlib.Nat.{ℕ_set}
use std.Path.{transport, transport⁻¹}
use std.Equiv.{Iso, iso_to_equiv}
use std.Univalence.{ua, ua-β, ua-β⁻¹}
use multi_terminal.Base.{
  ◌≡◌, refl, sym, ap, ap₂, ◌∙◌, subst, List, [], ◌∷◌, ◌++◌, append-nil, All, All-front, All-back,
  All-append, arith,
}
use multi_terminal.Base.Slices.{Bytes}
use multi_terminal.Base.Outcome.{Outcome, ret}
use multi_terminal.Codec.{SessionBlock, Frame, Parsed, ok, serialize, deserialize}
use multi_terminal.Codec.Grammar.{encode, encode_block, encode_blocks, IsBlock, IsFrame, IsByte}
use multi_terminal.Codec.Write.{serialize-encode}
use multi_terminal.Codec.RoundTrip.{All-IsSized, deserialize-encode}
use multi_terminal.Codec.Sound.{deserialize_sound}

-- The fields of type uint8 and []byte hold bytes.
abbrev pub HasBytes : Frame → Type 0
HasBytes f = IsByte f.frame_type × IsByte f.session_count × All (λ s. All IsByte s.bytes) f.sessions

-- The frames that a program can hold and that announce what they have.
abbrev pub Frames : Type 0
Frames = (f : Frame) × (IsFrame f × HasBytes f)

-- The texts that are a frame and nothing more: `Deserialize` accepts them and `Serialize` writes them.
abbrev pub Texts : Type 0
Texts =
    (w : Bytes) × (All IsByte w
      × ((f : Frame) × ((deserialize w ≡ ret (ok f)) × (serialize f ≡ ret w))))

All-prop {ℓ} :
    {A : Type ℓ} (P : A → Type 0) (l : List A) → ((x : A) → IsProp (P x)) → IsProp (All P l)
All-prop P [] h = hlevel
All-prop P (x ∷ xs) h = ×_prop (h x) (All-prop P xs h)

typed_prop : (f : Frame) → IsProp (IsFrame f × HasBytes f)
typed_prop f = hlevel (
  le_prop,
  ℕ_set,
  All-prop IsBlock f.sessions (λ s. hlevel (le_prop, ℕ_set)),
  All-prop (λ s. All IsByte s.bytes) f.sessions
      (λ s. All-prop IsByte s.bytes (λ b. hlevel le_prop)),
)

Bytes-set : IsSet Bytes
Bytes-set = hlevel ℕ_set

parsed_set : IsSet (Outcome (Parsed Frame))
parsed_set = hlevel ℕ_set

written_set : IsSet (Outcome Bytes)
written_set = hlevel ℕ_set

Texts-prop :
    (w : Bytes)
    → IsProp (All IsByte w × ((f : Frame) × ((deserialize w ≡ ret (ok f)) × (serialize f ≡ ret w))))
Texts-prop w (bs, (f, (d, s))) (bs', (g, (d', s'))) =
    ap₂ (λ a b. (a, b)) (All-prop IsByte w (λ b. hlevel le_prop) bs bs')
      (Σ_prop_path (λ h. hlevel (parsed_set, written_set)) (parsed_once (sym d ∙ d')))
  where
    parsed_once : ret (ok f) ≡ ret (ok g) → f ≡ g
    parsed_once e = cc e

blocks_bytes :
    (ss : List SessionBlock) → All (λ s. All IsByte s.bytes) ss → All IsByte (encode_blocks ss)
blocks_bytes [] h = tt
blocks_bytes (s ∷ ss) h =
    All-append IsByte (encode_block s) (encode_blocks ss)
      (omega arith, (omega arith, (omega arith, (omega arith, (omega arith, (omega arith, h.0))))))
      (blocks_bytes ss h.1)

text_of : Frames → Texts
text_of (f, (h, (t, n, bs))) = (
  encode f,
  (
    (t, (n, blocks_bytes f.sessions bs)),
    (
      f,
      (
        ap deserialize (sym (append-nil (encode f))) ∙ deserialize-encode f [] h,
        serialize-encode f (All-IsSized f.sessions h.blocks),
      ),
    ),
  ),
)

-- The bytes of a text are the bytes of its frame.
bytes_of_blocks :
    (ss : List SessionBlock) → All IsByte (encode_blocks ss) → All (λ s. All IsByte s.bytes) ss
bytes_of_blocks [] h = tt
bytes_of_blocks (s ∷ ss) h =
    let later : All IsByte (s.bytes ++ encode_blocks ss) = h.1.1.1.1.1.1 in
    (All-front IsByte s.bytes _ later, bytes_of_blocks ss (All-back IsByte s.bytes _ later))

ret-injective {ℓ} : {A : Type ℓ} {x y : A} → ret x ≡ ret y → x ≡ y
ret-injective e = cc e

encoded : (f : Frame) (w : Bytes) → IsFrame f → serialize f ≡ ret w → encode f ≡ w
encoded f w h e = ret-injective (sym (serialize-encode f (All-IsSized f.sessions h.blocks)) ∙ e)

frame_of : Texts → Frames
frame_of (w, (bs, (f, (d, s)))) =
    let h = (deserialize_sound w f bs d).0 in
    let all : All IsByte (encode f) = subst (All IsByte) (sym (encoded f w h s)) bs in
    (f, (h, (all.0, all.1.0, bytes_of_blocks f.sessions all.1.1)))

frames_texts : Iso Frames Texts
unfolding frame_of text_of
frames_texts = record {
  fun = text_of;
  inv = frame_of;
  rinv = λ t. Σ_prop_path Texts-prop (encoded t.1.1.0 t.0 (frame_of t).1.0 t.1.1.1.1);
  linv = λ f. Σ_prop_path typed_prop refl;
}

-- The type of frames is the type of texts: well-formed frames of bytes are the same, along a path of
-- types, as the texts that `Deserialize` accepts and `Serialize` writes back. To go along the path is to
-- serialize, and to come back is to deserialize.
pub frames_are_texts :
    (p : ◌≡◌ {A = Type 0} Frames Texts) × ((f : Frames) → serialize f.0 ≡ ret (transport p f).0)
    × ((t : Texts) → deserialize t.0 ≡ ret (ok (transport⁻¹ p t).0))
unfolding frames_texts text_of frame_of
frames_are_texts = (
  ua (iso_to_equiv frames_texts),
  λ f. (text_of f).1.1.1.1 ∙ ap (λ t. ret t.0) (sym (ua-β (iso_to_equiv frames_texts) f)),
  λ t. t.1.1.1.0 ∙ ap (λ f. ret (ok f.0)) (sym (ua-β⁻¹ (iso_to_equiv frames_texts) t)),
)
