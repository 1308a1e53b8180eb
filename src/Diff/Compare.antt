-- ===== src/Diff/Compare.antt =====
-- When two outputs count as different (diff/engine.go).
use Prim.Native.String.{String}
use text.Mathlib.TextEquality.{eq_iff}
use multi_terminal.Base.{
  ℕ, ◌≡◌, ◌↔◌, refl, sym, ap, ◌∙◌, Bool, true, false, Option, none, some, List, [], ◌∷◌, ◌++◌,
  append_assoc, append-nil, ◌==◌, ==_iff, arith, All,
}
use multi_terminal.Base.Int.{ℤ, pos, negsuc}
use multi_terminal.Base.Slices.{Bytes}
use multi_terminal.Base.Outcome.{Outcome, ret, panic, ◌>>=◌}
use multi_terminal.Ansi.Strip.{Piece, IsPiece, render, plain_bytes, remove_all-render}
use multi_terminal.Diff.{
  must_compile, ansi_pattern, noise_pattern, timestamp_pattern, Engine, init_package, split_from,
  split_lines, DiffResult, strip_ansi, filter_noise, process, int_eq, compare_results,
}

int_eq_iff : (a b : ℤ) → (int_eq a b ≡ true) ↔ (a ≡ b)
unfolding int_eq
int_eq_iff (pos a) (pos b) = ground (arith, ==_iff a b)
int_eq_iff (negsuc a) (negsuc b) = ground (arith, ==_iff a b)
int_eq_iff (pos a) (negsuc b) = ground arith
int_eq_iff (negsuc a) (pos b) = ground arith

-- Two results count as different exactly if their exit codes or their MD5 hashes are not the same.
pub compare_results_iff :
    (r s : DiffResult)
    → (compare_results r s ≡ false) ↔ ((r.exit_code ≡ s.exit_code) × (r.md5_hash ≡ s.md5_hash))
unfolding compare_results
compare_results_iff r s =
    ground (arith, int_eq_iff r.exit_code s.exit_code, eq_iff r.md5_hash s.md5_hash)

-- Two outputs of bytes other than ESC and of whole escape sequences that differ in the sequences only
-- count as the same, whatever the hashes and the noise pattern are, if the exit codes agree.
pub compare_results-render :
    (noise : Bytes → Bytes) (md5 sha1 : Bytes → String) (ps qs : List Piece) (i j : ℕ) (code : ℤ)
    → All IsPiece ps
    → All IsPiece qs
    → plain_bytes ps ≡ plain_bytes qs
    → compare_results
        (process noise md5 sha1 i (render ps) code)
        (process noise md5 sha1 j (render qs) code)
      ≡ false
unfolding process strip_ansi
compare_results-render noise md5 sha1 ps qs i j code ok ok' same =
    (compare_results_iff _ _).1 (refl, ap md5 clean)
  where
    clean :
        (process noise md5 sha1 i (render ps) code).clean_output
        ≡ (process noise md5 sha1 j (render qs) code).clean_output
    clean =
        ap (filter_noise noise) (remove_all-render ps ok ∙ same ∙ sym (remove_all-render qs ok'))

-- Lines with the newlines between them.
abbrev pub join_lines : List Bytes → Bytes
join_lines [] = []
join_lines (l ∷ []) = l
join_lines (l ∷ m ∷ ls) = l ++ 10 ∷ join_lines (m ∷ ls)

join_more :
    (line l cs : Bytes)
    → join_lines (line ∷ split_from l cs) ≡ line ++ 10 ∷ join_lines (split_from l cs)
unfolding split_from
join_more line l [] = refl
join_more line l (c ∷ cs) = by_test (c == 10) (join_more line (l ++ c ∷ []) cs)
  where
    split_at : Bool → List Bytes
    split_at b = elim b [ true ↦ l ∷ split_from [] cs | false ↦ split_from (l ++ c ∷ []) cs ]

    by_test :
        (newline : Bool)
        → join_lines (line ∷ split_from (l ++ c ∷ []) cs)
          ≡ line ++ 10 ∷ join_lines (split_from (l ++ c ∷ []) cs)
        → join_lines (line ∷ split_at newline) ≡ line ++ 10 ∷ join_lines (split_at newline)
    by_test true later = refl
    by_test false later = later

join-split_from : (line cs : Bytes) → join_lines (split_from line cs) ≡ line ++ cs
unfolding split_from
join-split_from line [] = sym (append-nil line)
join-split_from line (c ∷ cs) =
    by_test (c == 10) refl (join-split_from [] cs) (join-split_from (line ++ c ∷ []) cs)
  where
    split_at : Bool → List Bytes
    split_at b = elim b [ true ↦ line ∷ split_from [] cs | false ↦ split_from (line ++ c ∷ []) cs ]

    by_test :
        (newline : Bool)
        → (c == 10) ≡ newline
        → join_lines (split_from [] cs) ≡ cs
        → join_lines (split_from (line ++ c ∷ []) cs) ≡ (line ++ c ∷ []) ++ cs
        → join_lines (split_at newline) ≡ line ++ c ∷ cs
    by_test true hit next later =
        join_more line [] cs
        ∙ ap (λ l. line ++ 10 ∷ l) next
        ∙ ap (λ d. line ++ d ∷ cs) (sym ((==_iff c 10).0 hit))
    by_test false miss next later = later ∙ append_assoc line (c ∷ []) cs

-- The lines of a result, joined by newlines, are its clean output, for every raw output.
pub process-lines :
    (noise : Bytes → Bytes) (md5 sha1 : Bytes → String) (id : ℕ) (raw : Bytes) (code : ℤ)
    → let r = process noise md5 sha1 id raw code in join_lines r.lines ≡ r.clean_output
unfolding process split_lines
process-lines noise md5 sha1 id raw code = join-split_from [] (filter_noise noise (strip_ansi raw))

-- If regexp rejects the noise pattern, whose escape of a character beyond ASCII is none that it knows,
-- the package's initialisation panics, and with it the start of any program that imports it.
pub init_package_panics :
    (compile : String → Option (Bytes → Bytes))
    → compile noise_pattern ≡ none
    → init_package compile ≡ panic
unfolding init_package
init_package_panics compile rejects = by_first (compile ansi_pattern)
  where
    rest : (Bytes → Bytes) → Outcome Engine
    rest ansi = do
      noise ← must_compile (compile noise_pattern)
      timestamp ← must_compile (compile timestamp_pattern)
      ret (record { ansi = ansi; noise = noise; timestamp = timestamp })

    by_first : (o : Option (Bytes → Bytes)) → (must_compile o >>= rest) ≡ panic
    by_first none = unfold must_compile in refl
    by_first (some re) = unfold must_compile in rw rejects refl
