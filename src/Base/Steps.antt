-- ===== src/Base/Steps.antt =====
-- Systems that take steps: what an event does to a state, and what holds along a list of events.
-- No code of the gateway is modelled here.
use Prim.Native.Nat.{ℕ}
use mathlib.Core.Path.{◌≡◌, subst}
use mathlib.Core.Logic.{◌≢◌}
use mathlib.Core.List.{List, [], ◌∷◌}
use native.Mathlib.Omega.{arith}
use multi_terminal.Base.Lists.{All}

-- An event is impossible now, ends in a run-time panic, or leads to a state.
pub data Ran {ℓ} (A : Type ℓ) : Type ℓ where
  stuck crashed : Ran A
  at : A → Ran A

abbrev pub bind {ℓ κ} : {A : Type ℓ} {B : Type κ} → Ran A → (A → Ran B) → Ran B
bind stuck f = stuck
bind crashed f = crashed
bind (at a) f = f a

-- What holds of the state, if there is one.
abbrev pub Holds {ℓ κ} : {A : Type ℓ} → (A → Type κ) → Ran A → Type κ
Holds P stuck = Unit {κ}
Holds P crashed = Unit {κ}
Holds P (at a) = P a

-- And there was no panic.
abbrev pub Fine {ℓ} : {A : Type ℓ} → (A → Type 0) → Ran A → Type 0
Fine P stuck = Unit {0}
Fine P crashed = ◌≡◌ {A = ℕ} 0 1
Fine P (at a) = P a

pub Fine-ne-crashed {ℓ} : {A : Type ℓ} (P : A → Type 0) (r : Ran A) → Fine P r → r ≢ crashed
Fine-ne-crashed P stuck fine e = cc e
Fine-ne-crashed P crashed fine e = absurd (omega (arith, fine))
Fine-ne-crashed P (at a) fine e = cc e

module _ {ℓ κ} {S : Type ℓ} {E : Type κ} (step : S → E → Ran S) where
  unfoldable pub run : S → List E → Ran S
  run s [] = at s
  run s (e ∷ es) = bind (step s e) (λ t. run t es)

  bind-Holds {μ} :
      (P : S → Type μ) (r : Ran S) (es : List E)
      → Holds P r
      → ((t : S) → P t → Holds P (run t es))
      → Holds P (bind r (λ t. run t es))
  bind-Holds P stuck es h rest = tt
  bind-Holds P crashed es h rest = tt
  bind-Holds P (at t) es h rest = rest t h

  -- What every event of a kind keeps holds after any events of that kind.
  pub run-Holds {μ ν} :
      (P : S → Type μ) (Q : E → Type ν) (s : S) (es : List E)
      → ((t : S) (e : E) → Q e → P t → Holds P (step t e))
      → All Q es
      → P s
      → Holds P (run s es)
  unfolding run
  run-Holds P Q s [] keeps kind h = h
  run-Holds P Q s (e ∷ es) keeps kind h =
      bind-Holds P (step s e) es (keeps s e kind.0 h)
        (λ t later. run-Holds P Q t es keeps kind.1 later)

  pub reached {μ ν} :
      (P : S → Type μ) (Q : E → Type ν) (s t : S) (es : List E)
      → ((u : S) (e : E) → Q e → P u → Holds P (step u e))
      → All Q es
      → P s
      → run s es ≡ at t
      → P t
  reached P Q s t es keeps kind h e = subst (Holds P) e (run-Holds P Q s es keeps kind h)

  bind-Fine :
      (P : S → Type 0) (r : Ran S) (es : List E)
      → Fine P r
      → ((t : S) → P t → Fine P (run t es))
      → Fine P (bind r (λ t. run t es))
  bind-Fine P stuck es h rest = tt
  bind-Fine P crashed es h rest = h
  bind-Fine P (at t) es h rest = rest t h

  -- The same where the events do not panic either.
  pub run-Fine {μ} :
      (P : S → Type 0) (Q : E → Type μ) (s : S) (es : List E)
      → ((t : S) (e : E) → Q e → P t → Fine P (step t e))
      → All Q es
      → P s
      → Fine P (run s es)
  unfolding run
  run-Fine P Q s [] keeps kind h = h
  run-Fine P Q s (e ∷ es) keeps kind h =
      bind-Fine P (step s e) es (keeps s e kind.0 h)
        (λ t later. run-Fine P Q t es keeps kind.1 later)

-- Every event is of the kind of all events.
abbrev pub Any {ℓ} : {E : Type ℓ} → E → Type 0
Any e = Unit {0}

pub all-Any {ℓ} : {E : Type ℓ} (es : List E) → All Any es
all-Any [] = tt
all-Any (e ∷ es) = (tt, all-Any es)
