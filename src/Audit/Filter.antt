-- ===== src/Audit/Filter.antt =====
-- What the filter hides, and what it leaves alone (audit/sensitive.go).
use multi_terminal.Base.{
  ℕ, zero, ◌-◌, ◌≡◌, refl, ap, Bool, true, false, ◌&&◌, ◌||◌, not, Option, none, some, List, [],
  ◌∷◌, ◌++◌, if◌then◌else◌, ◌==◌, length, take, All, arith, Bool-cases, inl, inr,
}
use multi_terminal.Base.Slices.{codes}
use multi_terminal.Ansi.{is_space}
use multi_terminal.Audit.{
  Runes, folds, after_word, Hit, first_word, skip_space, after_sep, is_quote, skip_quote, is_value,
  skip_while, after_some, mask, match_assignment, password_keys, secret_keys, match_mysql,
  replace_from, replace_all, matches, filter, is_sensitive,
}

-- Where the pattern matches nowhere, nothing is replaced.
pub replace_all-matches :
    (match : Runes → Option Hit) (s : Runes) → matches match s ≡ false → replace_all match s ≡ s
unfolding matches replace_all replace_from
replace_all-matches match [] h = refl
replace_all-matches match (c ∷ cs) h = by_match (match (c ∷ cs)) h (replace_all-matches match cs)
  where
    by_match :
        (o : Option Hit)
        → elim o as (λ _. Bool) [ none ↦ matches match cs | some hit ↦ true ] ≡ false
        → (matches match cs ≡ false → replace_all match cs ≡ cs)
        → elim o as (λ _. Runes) [
          | none ↦ c ∷ replace_from match zero cs
          | some hit ↦ hit.new ++ replace_from match (length cs - length hit.rest) cs
        ]
          ≡ c ∷ cs
    by_match none h rest = ap (λ l. c ∷ l) (rest h)
    by_match (some hit) h rest = cc

-- A command that is not sensitive is logged as it is.
pub filter-is_sensitive : (s : Runes) → is_sensitive s ≡ false → filter s ≡ s
unfolding filter is_sensitive
filter-is_sensitive s h =
    rw
      (
        replace_all-matches (match_assignment password_keys) s (ground (arith, h)),
        replace_all-matches (match_assignment secret_keys) s (ground (arith, h)),
        replace_all-matches match_mysql s (ground (arith, h)),
      )
      refl

-- The word in any mix of cases; a text that is no beginning of it.
abbrev pub is_cased : Runes → Runes → Bool
is_cased [] [] = true
is_cased (p ∷ ps) (c ∷ cs) = folds p c && is_cased ps cs
is_cased _ _ = false

abbrev pub clashes : Runes → Runes → Bool
clashes (p ∷ ps) (c ∷ cs) = not (folds p c) || clashes ps cs
clashes _ _ = false

-- A text that is one of the words, in any mix of cases, and clashes with those before it.
abbrev pub is_key : List Runes → Runes → Bool
is_key [] key = false
is_key (w ∷ ws) key = is_cased w key || (clashes w key && is_key ws key)

and-left : (a b : Bool) → (a && b) ≡ true → a ≡ true
and-left a b h = ground arith

and-right : (a b : Bool) → (a && b) ≡ true → b ≡ true
and-right a b h = ground arith

after_word-is_cased :
    (w key tail : Runes)
    → is_cased w key ≡ true
    → (after_word folds w (key ++ tail) ≡ some tail) × (take (length w) (key ++ tail) ≡ key)
unfolding after_word
after_word-is_cased [] [] tail h = (refl, refl)
after_word-is_cased [] (c ∷ cs) tail h = absurd (cc h)
after_word-is_cased (p ∷ ps) [] tail h = absurd (cc h)
after_word-is_cased (p ∷ ps) (c ∷ cs) tail h =
    let rest = after_word-is_cased ps cs tail (and-right _ _ h) in
    (rw (and-left (folds p c) (is_cased ps cs) h) rest.0, ap (λ l. c ∷ l) rest.1)

after_word-clashes :
    (w key tail : Runes) → clashes w key ≡ true → after_word folds w (key ++ tail) ≡ none
unfolding after_word
after_word-clashes [] key tail h = absurd (cc h)
after_word-clashes (p ∷ ps) [] tail h = absurd (cc h)
after_word-clashes (p ∷ ps) (c ∷ cs) tail h = by_test (folds p c) h (after_word-clashes ps cs tail)
  where
    by_test :
        (b : Bool)
        → (not b || clashes ps cs) ≡ true
        → (clashes ps cs ≡ true → after_word folds ps (cs ++ tail) ≡ none)
        → (if b then after_word folds ps (cs ++ tail) else none) ≡ none
    by_test true h rest = rest h
    by_test false h rest = refl

pub first_word-is_key :
    (ws : List Runes) (key tail : Runes)
    → is_key ws key ≡ true
    → first_word ws (key ++ tail) ≡ some (record { new = key; rest = tail })
unfolding first_word
first_word-is_key [] key tail h = absurd (cc h)
first_word-is_key (w ∷ ws) key tail h = elim (Bool-cases (is_cased w key)) [
  | inl hit ↦
      let (after, word) = after_word-is_cased w key tail hit in
      rw (first_word, after)
        (ap (λ l. let hit : Hit = record { new = l; rest = tail } in some hit) word)
  | inr miss ↦
      let later = rw miss at h in
      rw (first_word, after_word-clashes w key tail (and-left _ _ later))
        (first_word-is_key ws key tail (and-right _ _ later))
]

-- An assignment of a secret as it stands in a command.
pub record Assignment : Type 0 where
  pub key : Runes
  pub space : Runes
  pub sep : ℕ
  pub more_space : Runes
  pub quote : Runes
  pub first : ℕ
  pub secret : Runes

abbrev pub shown : Assignment → Runes → Runes
shown a post =
    a.key ++ (a.space ++ a.sep ∷ (a.more_space ++ (a.quote ++ a.first ∷ (a.secret ++ post))))

abbrev pub IsOpening : Runes → Type 0
IsOpening [] = Unit {0}
IsOpening (c ∷ cs) = (is_quote c ≡ true) × (cs ≡ [])

-- The secret, whose first rune is a field of its own, ends at a quote or a space or with the text.
abbrev pub EndsValue : Runes → Type 0
EndsValue [] = Unit {0}
EndsValue (c ∷ cs) = is_value c ≡ false

pub record IsAssignment (keys : List Runes) (a : Assignment) (post : Runes) : Type 0 where
  pub named : is_key keys a.key ≡ true
  pub spaced : All (λ c. is_space c ≡ true) a.space
  pub assigned : (a.sep == 58 || a.sep == 61) ≡ true
  pub more_spaced : All (λ c. is_space c ≡ true) a.more_space
  pub quoted : IsOpening a.quote
  pub valued : is_value a.first ≡ true
  pub continued : All (λ c. is_value c ≡ true) a.secret
  pub ended : EndsValue post

skip_space_lem :
    (sp : Runes) (c : ℕ) (rest : Runes)
    → All (λ d. is_space d ≡ true) sp
    → is_space c ≡ false
    → skip_space (sp ++ c ∷ rest) ≡ c ∷ rest
unfolding skip_space
skip_space_lem [] c rest h none_here = rw none_here refl
skip_space_lem (d ∷ sp) c rest h none_here = rw h.0 (skip_space_lem sp c rest h.1 none_here)

skip_while_end : (post : Runes) → EndsValue post → skip_while is_value post ≡ post
unfolding skip_while
skip_while_end [] h = refl
skip_while_end (c ∷ cs) h = rw h refl

skip_while_lem :
    (s post : Runes)
    → All (λ c. is_value c ≡ true) s
    → EndsValue post
    → skip_while is_value (s ++ post) ≡ post
unfolding skip_while
skip_while_lem [] post h e = skip_while_end post e
skip_while_lem (c ∷ s) post h e = rw h.0 (skip_while_lem s post h.1 e)

sep-not-space : (c : ℕ) → (c == 58 || c == 61) ≡ true → is_space c ≡ false
sep-not-space c h = ground arith

quote-not-space : (c : ℕ) → is_quote c ≡ true → is_space c ≡ false
quote-not-space c h = ground arith

value-not-space : (c : ℕ) → is_value c ≡ true → is_space c ≡ false
value-not-space c h = ground arith

value-not-quote : (c : ℕ) → is_value c ≡ true → is_quote c ≡ false
value-not-quote c h = ground arith

skip_opening :
    (sp quote : Runes) (c : ℕ) (rest : Runes)
    → All (λ d. is_space d ≡ true) sp
    → IsOpening quote
    → is_value c ≡ true
    → skip_quote (skip_space (sp ++ (quote ++ c ∷ rest))) ≡ c ∷ rest
unfolding skip_quote
skip_opening sp [] c rest h o v =
    rw (skip_space_lem sp c rest h (value-not-space c v), value-not-quote c v) refl
skip_opening sp (q ∷ []) c rest h o v =
    rw (skip_space_lem sp q (c ∷ rest) h (quote-not-space q o.0), o.0) refl
skip_opening sp (q ∷ r ∷ qs) c rest h o v = absurd (cc (o.1))

pub match_assignment_lem :
    (keys : List Runes) (a : Assignment) (post : Runes)
    → IsAssignment keys a post
    → match_assignment keys (shown a post)
      ≡ some (record { new = a.key ++ (codes ": " ++ mask); rest = post })
unfolding match_assignment after_sep after_some
match_assignment_lem keys a post v =
    rw
      (
        first_word-is_key keys a.key
            (a.space ++ a.sep ∷ (a.more_space ++ (a.quote ++ a.first ∷ (a.secret ++ post))))
            v.named,
        skip_space_lem a.space a.sep (a.more_space ++ (a.quote ++ a.first ∷ (a.secret ++ post)))
            v.spaced (sep-not-space a.sep v.assigned),
        v.assigned,
        skip_opening a.more_space a.quote a.first (a.secret ++ post) v.more_spaced v.quoted
            v.valued,
        v.valued,
        skip_while_lem a.secret post v.continued v.ended,
      )
      refl
