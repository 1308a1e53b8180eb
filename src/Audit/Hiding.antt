-- ===== src/Audit/Hiding.antt =====
-- The secret of an assignment does not reach the clean input (audit/sensitive.go, service.go).
use Prim.Native.String.{String}
use multi_terminal.Base.{
  ℕ, ◌-◌, ◌<◌, ◌≡◌, ◌≢◌, refl, sym, ap, subst, ◌∙◌, Bool, true, false, Option, none, some, List, [],
  ◌∷◌, ◌++◌, append_assoc, length, length-append, All, arith, ◌⊎◌, inl, inr,
}
use multi_terminal.Base.Slices.{codes}
use multi_terminal.Audit.{
  Runes, folds, after_word, Hit, first_word, mask, match_assignment, password_keys, secret_keys,
  match_mysql, replace_from, replace_all, matches, filter, CommandLog, new_log, log_command,
  write_log,
}
use multi_terminal.Audit.Filter.{
  replace_all-matches, Assignment, shown, IsAssignment, match_assignment_lem,
}

replace_from_skip :
    (match : Runes → Option Hit) (front rest : Runes)
    → replace_from match (length front) (front ++ rest) ≡ replace_all match rest
unfolding replace_from replace_all
replace_from_skip match [] rest = refl
replace_from_skip match (c ∷ front) rest = replace_from_skip match front rest

replace_all_match :
    (match : Runes → Option Hit) (s post new : Runes)
    → 0 < length s
    → match (s ++ post) ≡ some (record { new = new; rest = post })
    → replace_all match (s ++ post) ≡ new ++ replace_all match post
unfolding replace_all replace_from
replace_all_match match [] post new some_length found = absurd (omega arith)
replace_all_match match (c ∷ s) post new some_length found =
    rw (replace_from, found, behind) (ap (λ l. new ++ l) (replace_from_skip match s post))
  where
    behind : length (s ++ post) - length post ≡ length s
    behind = omega (arith, length-append s post)

shown-append : (a : Assignment) (post : Runes) → shown a post ≡ shown a [] ++ post
shown-append a post = simp append_assoc

length-shown : (a : Assignment) → 0 < length (shown a [])
length-shown a = omega (
  arith,
  length-append a.key
      (a.space ++ a.sep ∷ (a.more_space ++ (a.quote ++ a.first ∷ (a.secret ++ [])))),
  length-append a.space (a.sep ∷ (a.more_space ++ (a.quote ++ a.first ∷ (a.secret ++ [])))),
)

-- No word begins with the rune.
abbrev pub IsQuiet : List Runes → ℕ → Type 0
IsQuiet [] c = Unit {0}
IsQuiet ([] ∷ ws) c = ◌≡◌ {A = ℕ} 0 1
IsQuiet ((p ∷ ps) ∷ ws) c = (folds p c ≡ false) × IsQuiet ws c

first_word-IsQuiet :
    (ws : List Runes) (c : ℕ) (cs : Runes) → IsQuiet ws c → first_word ws (c ∷ cs) ≡ none
unfolding first_word after_word
first_word-IsQuiet [] c cs q = refl
first_word-IsQuiet ([] ∷ ws) c cs q = absurd (omega arith)
first_word-IsQuiet ((p ∷ ps) ∷ ws) c cs q = rw q.0 (first_word-IsQuiet ws c cs q.1)

match_assignment-IsQuiet :
    (keys : List Runes) (c : ℕ) (cs : Runes)
    → IsQuiet keys c
    → match_assignment keys (c ∷ cs) ≡ none
unfolding match_assignment
match_assignment-IsQuiet keys c cs q = rw (first_word-IsQuiet keys c cs q) refl

replace_all_miss :
    (match : Runes → Option Hit) (c : ℕ) (cs : Runes)
    → match (c ∷ cs) ≡ none
    → replace_all match (c ∷ cs) ≡ c ∷ replace_all match cs
unfolding replace_all replace_from
replace_all_miss match c cs missed = rw (replace_from, missed) refl

replace_all-IsQuiet :
    (keys : List Runes) (pre rest : Runes)
    → All (IsQuiet keys) pre
    → replace_all (match_assignment keys) (pre ++ rest)
      ≡ pre ++ replace_all (match_assignment keys) rest
replace_all-IsQuiet keys [] rest q = refl
replace_all-IsQuiet keys (c ∷ pre) rest q =
    replace_all_miss (match_assignment keys) c (pre ++ rest)
      (match_assignment-IsQuiet keys c (pre ++ rest) q.0)
    ∙ (ap (λ l. c ∷ l) (replace_all-IsQuiet keys pre rest q.1))

-- In a text whose runes before the assignment begin no keyword, the pass over the assignments
-- replaces a whole assignment by its keyword and the mask, and goes on behind it.
pub replace_all-shown :
    (keys : List Runes) (a : Assignment) (pre post : Runes)
    → All (IsQuiet keys) pre
    → IsAssignment keys a post
    → replace_all (match_assignment keys) (pre ++ shown a post)
      ≡ pre ++ ((a.key ++ (codes ": " ++ mask)) ++ replace_all (match_assignment keys) post)
replace_all-shown keys a pre post quiet v =
    replace_all-IsQuiet keys pre (shown a post) quiet
    ∙ ap (λ l. pre ++ l) (ap (replace_all (match_assignment keys)) split ∙ replaced)
  where
    split : shown a post ≡ shown a [] ++ post
    split = shown-append a post

    new : Runes
    new = a.key ++ (codes ": " ++ mask)

    replaced :
        replace_all (match_assignment keys) (shown a [] ++ post)
        ≡ new ++ replace_all (match_assignment keys) post
    replaced =
        replace_all_match (match_assignment keys) (shown a []) post new (length-shown a)
          (ap (match_assignment keys) (sym split) ∙ match_assignment_lem keys a post v)

-- The same assignment of another secret.
abbrev pub with_secret : Assignment → ℕ → Runes → Assignment
with_secret a first secret = record a { first = first; secret = secret }

-- The pass over passwords, or that over the other secrets where the one before it finds nothing in
-- either text.
abbrev pub Covers : List Runes → Runes → Runes → Type 0
Covers keys s t =
    (keys ≡ password_keys)
    ⊎ ((keys ≡ secret_keys)
        × (matches (match_assignment password_keys) s ≡ false)
        × (matches (match_assignment password_keys) t ≡ false))

later_passes :
    (keys : List Runes) (s t : Runes)
    → Covers keys s t
    → replace_all (match_assignment keys) s ≡ replace_all (match_assignment keys) t
    → filter s ≡ filter t
unfolding filter
later_passes keys s t (inl e) same =
    ap (λ l. replace_all match_mysql (replace_all (match_assignment secret_keys) l))
      (subst (λ k. replace_all (match_assignment k) s ≡ replace_all (match_assignment k) t) e same)
later_passes keys s t (inr (e, none_s, none_t)) same =
    rw (replace_all-matches _ s none_s, replace_all-matches _ t none_t)
      (ap (replace_all match_mysql) (
        subst (λ k. replace_all (match_assignment k) s ≡ replace_all (match_assignment k) t) e
          same))

-- Two commands that assign different passwords, or different secrets under another keyword where neither
-- has a password, and are alike otherwise, have the same clean input: nothing of the secret is in it, not
-- even its length. A secret has no spaces and quotes and ends at one of them or with the text; its
-- keyword may be in any mix of cases, with spaces and a quote behind it, and no rune of the text before
-- it begins a keyword.
pub filter_hides :
    (keys : List Runes) (a : Assignment) (first : ℕ) (secret pre post : Runes)
    → Covers keys (pre ++ shown (with_secret a first secret) post) (pre ++ shown a post)
    → All (IsQuiet keys) pre
    → IsAssignment keys a post
    → IsAssignment keys (with_secret a first secret) post
    → filter (pre ++ shown (with_secret a first secret) post) ≡ filter (pre ++ shown a post)
filter_hides keys a first secret pre post covers quiet v w =
    later_passes keys (pre ++ shown (with_secret a first secret) post) (pre ++ shown a post) covers
      (replace_all-shown keys (with_secret a first secret) pre post quiet w
        ∙ sym (replace_all-shown keys a pre post quiet v))

-- If the field rawInput can be read from what json.Marshal writes, it is the command itself in whatever
-- file `LogCommand` writes, secrets included, while the clean input of the log that it returns is
-- filtered. It writes no file, and returns an error, exactly if the encoding or the write fails.
pub log_command_reveals :
    (marshal : CommandLog → Option Runes) (raw_input : Runes → Option Runes) (writes : Bool)
    (now user : String) (id : ℕ) (host : String) (raw : Runes) (risk : String)
    → ((log : CommandLog) (json : Runes)
        → marshal log ≡ some json
        → raw_input json ≡ some log.raw_input)
    → let out = log_command marshal writes now user id host raw risk in
      ((out.file ≡ none)
        × (out.error ≢ none)
        × ((marshal (new_log now user id host raw risk) ≡ none) ⊎ (writes ≡ false)))
      ⊎ ((out.error ≡ none)
          × (writes ≡ true)
          × (json : Runes) × (log : CommandLog) × (out.file ≡ some json)
          × (raw_input json ≡ some raw)
          × (out.log ≡ some log)
          × (log.clean_input ≡ filter raw))
unfolding log_command write_log new_log
log_command_reveals marshal raw_input writes now user id host raw risk round =
    by_parts (marshal log) writes refl
  where
    log : CommandLog
    log = new_log now user id host raw risk

    by_parts :
        (json : Option Runes) (w : Bool)
        → marshal log ≡ json
        → let out = write_log log json w in
          ((out.file ≡ none) × (out.error ≢ none) × ((marshal log ≡ none) ⊎ (w ≡ false)))
          ⊎ ((out.error ≡ none)
              × (w ≡ true)
              × (bytes : Runes) × (l : CommandLog) × (out.file ≡ some bytes)
              × (raw_input bytes ≡ some raw)
              × (out.log ≡ some l)
              × (l.clean_input ≡ filter raw))
    by_parts none w e = inl (refl, (λ f. cc), inl e)
    by_parts (some json) true e = inr (refl, refl, json, log, refl, round log json e, refl, refl)
    by_parts (some json) false e = inl (refl, (λ f. cc), inr refl)
