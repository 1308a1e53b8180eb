-- ===== src/Metrics/Init.antt =====
-- The initialisation of the metrics (metrics/metrics.go).
use Prim.Native.String.{String}
use text.Mathlib.Text.{◌==◌ as str_eq}
use multi_terminal.Base.{
  ℕ, ◌≡◌, refl, sym, ap, subst, ◌∙◌, Bool, true, false, ◌&&◌, ◌||◌, not, List, [], ◌∷◌, ltb,
}
use multi_terminal.Base.Outcome.{Outcome, ret}
use multi_terminal.Metrics.{
  Kind, gauge, histogram, counter_vec, histogram_vec, Collector, collectors, register_all,
  init_metrics,
}

-- Buckets must grow.
abbrev pub grows : List ℕ → Bool
grows [] = true
grows (a ∷ []) = true
grows (a ∷ b ∷ bs) = ltb a b && grows (b ∷ bs)

abbrev pub among : String → List String → Bool
among s [] = false
among s (t ∷ ts) = str_eq t s || among s ts

abbrev pub all_new : List String → Bool
all_new [] = true
all_new (s ∷ ss) = not (among s ss) && all_new ss

-- What Prometheus asks of a collector: growing buckets, and labels that differ, none of them the label
-- `le` of a histogram's buckets.
abbrev pub sound : Kind → Bool
sound gauge = true
sound (histogram buckets) = grows buckets
sound (counter_vec labels) = all_new labels
sound (histogram_vec buckets labels) = grows buckets && (all_new labels && not (among "le" labels))

-- And of the registry: names that are not yet taken.
abbrev pub accepted : List String → List Collector → Bool
accepted taken [] = true
accepted taken (c ∷ cs) = (sound c.kind && not (among c.name taken)) && accepted (c.name ∷ taken) cs

-- The names after the registrations, the newest first.
abbrev pub names_after : List String → List Collector → List String
names_after taken [] = taken
names_after taken (c ∷ cs) = names_after (c.name ∷ taken) cs

both : (a b : Bool) → (a && b) ≡ true → (a ≡ true) × (b ≡ true)
both true true e = (refl, refl)
both true false e = absurd (cc e)
both false b e = absurd (cc e)

module _ {R : Type 0} (register : Collector → R → Outcome R) (names : R → List String)
    (registers : (c : Collector) (r : R)
      → (sound c.kind && not (among c.name (names r))) ≡ true
      → (s : R) × (register c r ≡ ret s) × (names s ≡ c.name ∷ names r)) where
  register_all_lem :
      (cs : List Collector) (r : R)
      → accepted (names r) cs ≡ true
      → (s : R) × (register_all register cs r ≡ ret s) × (names s ≡ names_after (names r) cs)
  unfolding register_all
  register_all_lem [] r ok = (r, refl, refl)
  register_all_lem (c ∷ cs) r ok =
      let (mine, others) = both _ _ ok in
      let (s, done, named) = registers c r mine in
      let (t, rest, final) =
        register_all_lem cs s (subst (λ n. accepted n cs ≡ true) (sym named) others) in
      (t, rw done rest, final ∙ ap (λ n. names_after n cs) named)

  -- If a registration succeeds for a sound collector whose name is not taken, as Prometheus says, then
  -- the package is initialised without a panic in an empty registry, and has registered its eight
  -- collectors.
  pub init_metrics_lem :
      (r : R)
      → names r ≡ []
      → (s : R) × (init_metrics register r ≡ ret s) × (names s ≡ names_after [] collectors)
  unfolding init_metrics
  init_metrics_lem r empty =
      let (s, done, named) =
        register_all_lem collectors r
          (subst (λ n. accepted n collectors ≡ true) (sym empty) refl) in
      (s, done, named ∙ ap (λ n. names_after n collectors) empty)
