-- ===== src/Base/Maps.antt =====
-- Go's maps and sync.Map with numeric keys, as association lists. The order of the list stands for
-- the order in which `Range` visits the entries, which Go leaves open: theorems hold for every list.
use Prim.Native.Nat.{ℕ}
use mathlib.Core.Path.{◌≡◌, refl, ap, subst}
use mathlib.Core.Logic.{◌≢◌, inl, inr}
use mathlib.Core.Bool.{Bool, true}
use mathlib.Core.Option.{Option, none, some}
use mathlib.Core.List.{List, [], ◌∷◌}
use native.Mathlib.Omega.{arith}
use multi_terminal.Base.Tests.{◌==◌, Bool-cases, if◌then◌else◌}
use multi_terminal.Base.Lists.{keep, All}

module _ {ℓ} {V : Type ℓ} where
  -- `Load`
  unfoldable pub lookup : ℕ → List (ℕ × V) → Option V
  lookup k [] = none
  lookup k ((j, v) ∷ m) = if j == k then some v else lookup k m

  -- `Store`
  unfoldable pub store : ℕ → V → List (ℕ × V) → List (ℕ × V)
  store k v [] = (k, v) ∷ []
  store k v ((j, w) ∷ m) = if j == k then (k, v) ∷ m else (j, w) ∷ store k v m

  -- `Delete`
  unfoldable pub delete : ℕ → List (ℕ × V) → List (ℕ × V)
  delete k [] = []
  delete k ((j, w) ∷ m) = if j == k then delete k m else (j, w) ∷ delete k m

  pub lookup-store :
      (k j : ℕ) (v : V) (m : List (ℕ × V))
      → lookup j (store k v m) ≡ (if k == j then some v else lookup j m)
  unfolding lookup store
  lookup-store k j v [] = refl
  lookup-store k j v ((i, w) ∷ m) = ground (arith, lookup-store k j v m)

  pub lookup-delete :
      (k j : ℕ) (m : List (ℕ × V)) → lookup j (delete k m) ≡ (if k == j then none else lookup j m)
  unfolding lookup delete
  lookup-delete k j [] = ground arith
  lookup-delete k j ((i, w) ∷ m) = ground (arith, lookup-delete k j m)

  -- No key of the list is `k`.
  abbrev pub Fresh : ℕ → List (ℕ × V) → Type 0
  Fresh k [] = Unit {0}
  Fresh k ((j, _) ∷ m) = (j ≢ k) × Fresh k m

  -- No key occurs twice.
  abbrev pub Distinct : List (ℕ × V) → Type 0
  Distinct [] = Unit {0}
  Distinct ((j, _) ∷ m) = Fresh j m × Distinct m

  pub lookup_of_Fresh : (k : ℕ) (m : List (ℕ × V)) → Fresh k m → lookup k m ≡ none
  unfolding lookup
  lookup_of_Fresh k [] h = refl
  lookup_of_Fresh k ((j, w) ∷ m) h = ground (arith, lookup_of_Fresh k m h.1)

  pub Fresh-store : (k j : ℕ) (v : V) (m : List (ℕ × V)) → k ≢ j → Fresh j m → Fresh j (store k v m)
  unfolding store
  Fresh-store k j v [] ne h = (ne, tt)
  Fresh-store k j v ((i, w) ∷ m) ne h = ground (arith, Fresh-store k j v m ne h.1)

  pub store-Distinct : (k : ℕ) (v : V) (m : List (ℕ × V)) → Distinct m → Distinct (store k v m)
  unfolding store
  store-Distinct k v [] h = (tt, tt)
  store-Distinct k v ((i, w) ∷ m) h = ground (arith, store-Distinct k v m h.1, Fresh-store k i v m)

  pub Fresh-delete : (k j : ℕ) (m : List (ℕ × V)) → Fresh j m → Fresh j (delete k m)
  unfolding delete
  Fresh-delete k j [] h = tt
  Fresh-delete k j ((i, w) ∷ m) h = ground (arith, Fresh-delete k j m h.1)

  pub delete-Distinct : (k : ℕ) (m : List (ℕ × V)) → Distinct m → Distinct (delete k m)
  unfolding delete
  delete-Distinct k [] h = tt
  delete-Distinct k ((i, w) ∷ m) h = ground (arith, delete-Distinct k m h.1, Fresh-delete k i m h.0)

  pub Fresh-keep : (p : ℕ × V → Bool) (j : ℕ) (m : List (ℕ × V)) → Fresh j m → Fresh j (keep p m)
  Fresh-keep p j [] h = tt
  Fresh-keep p j ((i, w) ∷ m) h = ground (arith, Fresh-keep p j m h.1)

  pub keep-Distinct : (p : ℕ × V → Bool) (m : List (ℕ × V)) → Distinct m → Distinct (keep p m)
  keep-Distinct p [] h = tt
  keep-Distinct p ((i, w) ∷ m) h = ground (arith, keep-Distinct p m h.1, Fresh-keep p i m h.0)

  -- What a lookup finds after the entries that fail a test are dropped.
  pub lookup-keep-some :
      (p : ℕ × V → Bool) (k : ℕ) (v : V) (m : List (ℕ × V))
      → Distinct m
      → lookup k m ≡ some v
      → lookup k (keep p m) ≡ (if p (k, v) then some v else none)
  unfolding lookup
  lookup-keep-some p k v [] d e = ground arith
  lookup-keep-some p k v ((i, w) ∷ m) d e =
      ground (arith, lookup-keep-some p k v m d.1, lookup_of_Fresh k (keep p m), Fresh-keep p k m)

  pub lookup-keep-none :
      (p : ℕ × V → Bool) (k : ℕ) (m : List (ℕ × V)) → lookup k m ≡ none → lookup k (keep p m) ≡ none
  unfolding lookup
  lookup-keep-none p k [] e = refl
  lookup-keep-none p k ((i, w) ∷ m) e = ground (arith, lookup-keep-none p k m)

  -- Predicates on all entries.
  pub All-store {κ} :
      (P : ℕ × V → Type κ) (k : ℕ) (v : V) (m : List (ℕ × V))
      → P (k, v)
      → All P m
      → All P (store k v m)
  unfolding store
  All-store P k v [] h a = (h, tt)
  All-store P k v ((j, w) ∷ m) h a = elim (Bool-cases (j == k)) [
    | inl hit ↦ rw hit (h, a.1)
    | inr miss ↦ rw miss (a.0, All-store P k v m h a.1)
  ]

  pub All-delete {κ} :
      (P : ℕ × V → Type κ) (k : ℕ) (m : List (ℕ × V)) → All P m → All P (delete k m)
  unfolding delete
  All-delete P k [] a = tt
  All-delete P k ((j, w) ∷ m) a = elim (Bool-cases (j == k)) [
    | inl hit ↦ rw hit (All-delete P k m a.1)
    | inr miss ↦ rw miss (a.0, All-delete P k m a.1)
  ]

  pub All-keep {κ} :
      (P : ℕ × V → Type κ) (p : ℕ × V → Bool) (m : List (ℕ × V)) → All P m → All P (keep p m)
  All-keep P p [] a = tt
  All-keep P p ((j, w) ∷ m) a = elim (Bool-cases (p (j, w))) [
    | inl hit ↦ rw hit (a.0, All-keep P p m a.1)
    | inr miss ↦ rw miss (All-keep P p m a.1)
  ]

  pub lookup-All {κ} :
      (P : ℕ × V → Type κ) (k : ℕ) (v : V) (m : List (ℕ × V))
      → All P m
      → lookup k m ≡ some v
      → P (k, v)
  unfolding lookup
  lookup-All P k v [] a e = cc
  lookup-All P k v ((j, w) ∷ m) a e = elim (Bool-cases (j == k)) [
    | inl hit ↦ subst P (entry hit) a.0
    | inr miss ↦ lookup-All P k v m a.1 (rw miss at e)
  ]
    where
      entry : (j == k) ≡ true → ◌≡◌ {A = ℕ × V} (j, w) (k, v)
      entry hit = ground arith

  -- To store what is there changes nothing.
  pub store_same : (k : ℕ) (v : V) (m : List (ℕ × V)) → lookup k m ≡ some v → store k v m ≡ m
  unfolding lookup store
  store_same k v [] e = cc
  store_same k v ((j, w) ∷ m) e = elim (Bool-cases (j == k)) [
    | inl hit ↦ rw (hit, entry hit)
    | inr miss ↦ rw miss (ap (◌∷◌ (j, w)) (store_same k v m (rw miss at e)))
  ]
    where
      entry : (j == k) ≡ true → ◌≡◌ {A = ℕ × V} (k, v) (j, w)
      entry hit = ground arith

  -- An entry that is found in a map is found behind another key too.
  lookup-cons-Fresh :
      (j : ℕ) (w : V) (m es : List (ℕ × V))
      → Fresh j es
      → All (λ e. lookup e.0 m ≡ some e.1) es
      → All (λ e. lookup e.0 ((j, w) ∷ m) ≡ some e.1) es
  lookup-cons-Fresh j w m [] f a = tt
  lookup-cons-Fresh j w m ((i, v) ∷ es) f a =
      (unfold lookup in ground (arith, a.0), lookup-cons-Fresh j w m es f.1 a.1)

  -- The entries of a map with distinct keys are found under their keys.
  pub Distinct-lookup : (m : List (ℕ × V)) → Distinct m → All (λ e. lookup e.0 m ≡ some e.1) m
  Distinct-lookup [] d = tt
  Distinct-lookup ((j, w) ∷ m) d =
      (unfold lookup in ground arith, lookup-cons-Fresh j w m m d.0 (Distinct-lookup m d.1))
