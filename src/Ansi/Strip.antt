-- ===== src/Ansi/Strip.antt =====
-- What the removal of escape sequences leaves.
use multi_terminal.Base.{
  ℕ, zero, suc, ◌+◌, ◌≡◌, ◌≢◌, refl, ap, ◌∙◌, Bool, true, false, Option, none, some, List, [], ◌∷◌,
  ◌++◌, append_assoc, arith, All, length, length-append,
}
use multi_terminal.Base.Slices.{Bytes}
use multi_terminal.Ansi.{
  is_param, is_letter, esc, params, match_ansi, remove_from, remove_all, has_ansi,
}

-- A text cut into plain bytes and escape sequences.
pub data Piece : Type 0 where
  plain : ℕ → Piece
  escape : Bytes → ℕ → Piece

abbrev pub shown : Piece → Bytes
shown (plain c) = c ∷ []
shown (escape ps final) = esc ∷ 91 ∷ (ps ++ final ∷ [])

abbrev pub render : List Piece → Bytes
render [] = []
render (p ∷ ps) = shown p ++ render ps

abbrev pub plain_bytes : List Piece → Bytes
plain_bytes [] = []
plain_bytes (plain c ∷ ps) = c ∷ plain_bytes ps
plain_bytes (escape _ _ ∷ ps) = plain_bytes ps

-- A plain byte is no ESC; a sequence has parameters and ends in a letter.
abbrev pub IsPiece : Piece → Type 0
IsPiece (plain c) = c ≢ esc
IsPiece (escape ps final) = All (λ c. is_param c ≡ true) ps × (is_letter final ≡ true)

letter-not-param : (c : ℕ) → is_letter c ≡ true → is_param c ≡ false
letter-not-param c h = ground arith

params_lem :
    (n : ℕ) (ps : Bytes) (final : ℕ) (rest : Bytes)
    → All (λ c. is_param c ≡ true) ps
    → is_letter final ≡ true
    → params n (ps ++ final ∷ rest) ≡ some (n + suc (length ps))
unfolding params
params_lem n [] final rest ok letter =
    rw (letter-not-param final letter, letter) (ap some (omega arith))
params_lem n (c ∷ ps) final rest ok letter =
    rw ok.0 (params_lem (suc n) ps final rest ok.1 letter ∙ ap some (omega arith))

-- Dropping the bytes of a match.
remove_from_skip :
    (match : Bytes → Option ℕ) (front rest : Bytes)
    → remove_from match (length front) (front ++ rest) ≡ remove_all match rest
unfolding remove_from remove_all
remove_from_skip match [] rest = refl
remove_from_skip match (c ∷ front) rest = remove_from_skip match front rest

match_ansi_plain : (c : ℕ) (rest : Bytes) → c ≢ esc → match_ansi (c ∷ rest) ≡ none
unfolding match_ansi
match_ansi_plain c [] ne = refl
match_ansi_plain c (d ∷ rest) ne = ground arith

match_ansi_escape :
    (ps : Bytes) (final : ℕ) (rest : Bytes)
    → IsPiece (escape ps final)
    → match_ansi (shown (escape ps final) ++ rest) ≡ some (length (91 ∷ (ps ++ final ∷ [])))
unfolding match_ansi
match_ansi_escape ps final rest ok =
    ap (params 1) (append_assoc ps (final ∷ []) rest)
    ∙ params_lem 1 ps final rest ok.0 ok.1
    ∙ ap some (omega (arith, length-append ps (final ∷ [])))

remove_escape :
    (ps : Bytes) (final : ℕ) (rest : Bytes)
    → IsPiece (escape ps final)
    → remove_all match_ansi (shown (escape ps final) ++ rest) ≡ remove_all match_ansi rest
unfolding remove_from remove_all
remove_escape ps final rest ok =
    rw (remove_from, match_ansi_escape ps final rest ok)
      (remove_from_skip match_ansi (91 ∷ (ps ++ final ∷ [])) rest)

remove_plain :
    (c : ℕ) (rest : Bytes)
    → c ≢ esc
    → remove_all match_ansi (c ∷ rest) ≡ c ∷ remove_all match_ansi rest
unfolding remove_from remove_all
remove_plain c rest ne = rw (match_ansi_plain c rest ne, remove_from) refl

-- From a text that consists of bytes other than ESC and of whole escape sequences, the sequences are
-- removed and every other byte stays, in order.
pub remove_all-render :
    (ps : List Piece) → All IsPiece ps → remove_all match_ansi (render ps) ≡ plain_bytes ps
remove_all-render [] ok = unfold remove_all remove_from in refl
remove_all-render (plain c ∷ ps) ok =
    remove_plain c (render ps) ok.0 ∙ ap (λ l. c ∷ l) (remove_all-render ps ok.1)
remove_all-render (escape qs final ∷ ps) ok =
    remove_escape qs final (render ps) ok.0 ∙ remove_all-render ps ok.1

-- Where the pattern matches nowhere, nothing is removed.
pub remove_all-has_ansi : (bs : Bytes) → has_ansi bs ≡ false → remove_all match_ansi bs ≡ bs
unfolding has_ansi remove_all remove_from
remove_all-has_ansi [] h = refl
remove_all-has_ansi (c ∷ cs) h = by_match (match_ansi (c ∷ cs)) h (remove_all-has_ansi cs)
  where
    by_match :
        (o : Option ℕ)
        → elim o as (λ _. Bool) [ none ↦ has_ansi cs | some n ↦ true ] ≡ false
        → (has_ansi cs ≡ false → remove_all match_ansi cs ≡ cs)
        → elim o as (λ _. Bytes) [
          | none ↦ c ∷ remove_from match_ansi zero cs
          | some n ↦ remove_from match_ansi n cs
        ]
          ≡ c ∷ cs
    by_match none h rest = ap (λ l. c ∷ l) (rest h)
    by_match (some n) h rest = cc
