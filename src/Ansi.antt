-- ===== src/Ansi.antt =====
-- The regular expressions of internal/diff/engine.go and internal/session/context_checker.go, as the
-- standard regexp package matches them on bytes. A class is a test; `[0-9;]*` and the letter behind it
-- share no byte, so the longest run is the only one that can match. A match is the number of bytes
-- behind its first one.
pub mod Strip
use multi_terminal.Base.{
  ℕ, zero, suc, ◌+◌, Bool, true, false, ◌&&◌, ◌||◌, Option, none, some, List, [], ◌∷◌, ◌++◌, leb,
  ◌==◌, if◌then◌else◌,
}
use multi_terminal.Base.Slices.{Bytes}

abbrev pub in_range : ℕ → ℕ → ℕ → Bool
in_range lo hi c = leb lo c && leb c hi

-- `[0-9;]`
abbrev pub is_param : ℕ → Bool
is_param c = in_range 48 57 c || c == 59

-- `[A-Za-z]`
abbrev pub is_letter : ℕ → Bool
is_letter c = in_range 65 90 c || in_range 97 122 c

-- `\d`
abbrev pub is_digit : ℕ → Bool
is_digit c = in_range 48 57 c

-- `\s`
abbrev pub is_space : ℕ → Bool
is_space c = in_range 9 10 c || in_range 12 13 c || c == 32

abbrev pub esc : ℕ
esc = 27

-- `[0-9;]*[A-Za-z]` behind `n` bytes
unfoldable pub params : ℕ → Bytes → Option ℕ
params n [] = none
params n (c ∷ cs) =
    let more = params (suc n) cs in
    if is_param c then more else if is_letter c then some (suc n) else none

-- `\x1b\[[0-9;]*[A-Za-z]`
unfoldable pub match_ansi : Bytes → Option ℕ
match_ansi (e ∷ b ∷ cs) = if e == esc && b == 91 then params 1 cs else none
match_ansi _ = none

-- `\[\d{2}:\d{2}:\d{2}\]`
unfoldable pub match_timestamp : Bytes → Option ℕ
match_timestamp (o ∷ a ∷ b ∷ c ∷ d ∷ e ∷ f ∷ g ∷ h ∷ z ∷ _) =
    if o == 91
      && is_digit a
      && is_digit b
      && c == 58
      && is_digit d
      && is_digit e
      && f == 58
      && is_digit g
      && is_digit h
      && z == 93
    then some 9
    else none
match_timestamp _ = none

-- `ReplaceAllString(input, "")`; the number says how many bytes of a match are still to be dropped.
module _ (match : Bytes → Option ℕ) where
  unfoldable pub remove_from : ℕ → Bytes → Bytes
  remove_from skip [] = []
  remove_from (suc skip) (c ∷ cs) = remove_from skip cs
  remove_from zero (c ∷ cs) = elim (match (c ∷ cs)) [
    | none ↦ c ∷ remove_from zero cs
    | some n ↦ remove_from n cs
  ]

  unfoldable pub remove_all : Bytes → Bytes
  remove_all = remove_from zero

-- `Match` of the pattern of `match_ansi`: somewhere in the text.
unfoldable pub has_ansi : Bytes → Bool
has_ansi [] = false
has_ansi (c ∷ cs) = elim (match_ansi (c ∷ cs)) [ none ↦ has_ansi cs | some n ↦ true ]

-- `[\$#]\s*$`
unfoldable pub all_space : Bytes → Bool
all_space [] = true
all_space (c ∷ cs) = is_space c && all_space cs

unfoldable pub has_prompt : Bytes → Bool
has_prompt [] = false
has_prompt (c ∷ cs) = ((c == 36 || c == 35) && all_space cs) || has_prompt cs
