-- ===== src/Resource/Guard/Count.antt =====
-- The descriptor count and the checks before the start (resource/guard.go).
use multi_terminal.Base.{
  ℕ, zero, suc, ◌+◌, ◌*◌, ◌≤◌, ◌<◌, ◌≡◌, ◌↔◌, ap, ◌∙◌, Option, none, some, List, [], ◌∷◌, arith,
}
use multi_terminal.Resource.Guard.{check_fd_limit, check_system_resources, pre_flight, count_names}

-- The answers of `Readdirnames(100)` for a directory with `full` hundreds of names and `rest` more:
-- hundreds, then a short batch, or io.EOF if there are no more.
abbrev pub answers : ℕ → ℕ → List (Option ℕ)
answers zero zero = none ∷ []
answers zero (suc rest) = some (suc rest) ∷ []
answers (suc full) rest = some 100 ∷ answers full rest

count_names_from :
    (full rest count : ℕ)
    → rest < 100
    → count_names (answers full rest) count ≡ some (count + (100 * full + rest))
unfolding count_names
count_names_from zero zero count h = ground arith
count_names_from zero (suc rest) count h = ground arith
count_names_from (suc full) rest count h =
    count_names_from full rest (count + 100) h ∙ ap some (omega arith)

-- The batches of a directory with any number of names are added up to that number.
pub count_names_lem :
    (full rest : ℕ) → rest < 100 → count_names (answers full rest) 0 ≡ some (100 * full + rest)
count_names_lem full rest h = count_names_from full rest 0 h ∙ ap some (omega arith)

-- Whether the system answered and allows at least 4096 descriptors.
abbrev pub Ready : Option ℕ → Option ℕ → Type 0
Ready none stat = ⊥
Ready (some cur) none = ⊥
Ready (some cur) (some free) = 4096 ≤ cur

-- The checks succeed exactly if the descriptor limit is known and at least 4096 and the file system
-- answers.
pub pre_flight_iff : (rlim stat : Option ℕ) → (pre_flight rlim stat ≡ none) ↔ Ready rlim stat
unfolding pre_flight check_system_resources check_fd_limit
pre_flight_iff none stat = ((λ e. cc), (λ r. absurd r))
pre_flight_iff (some cur) none = ground arith
pre_flight_iff (some cur) (some free) = ground arith
