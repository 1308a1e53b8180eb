-- ===== src/Base/Worker.antt =====
-- A goroutine that works at every tick until a channel is closed.
-- No code of the gateway is modelled here.
use multi_terminal.Base.Tests.{ltb, if◌then◌else◌}
use Prim.Native.Nat.{ℕ, ◌+◌, ◌-◌}
use mathlib.Core.Path.{◌≡◌, refl, subst}
use mathlib.Core.Bool.{Bool, true, false}
use mathlib.Core.List.{List, [], ◌∷◌}
use multi_terminal.Base.Steps.{Ran, stuck, crashed, at, bind, run}

-- What the goroutine works on, whether the channel is closed, and how many such goroutines run.
pub record Worker {ℓ} (S : Type ℓ) : Type ℓ where
  pub inner : S
  pub stopped : Bool
  pub goroutines : ℕ

-- `T` is what a tick reads.
pub data Signal {κ} (T : Type κ) : Type κ where
  start_called stop_called returned : Signal T
  ticked : T → Signal T

abbrev pub idle {ℓ} : {S : Type ℓ} → S → Worker S
idle s = record { inner = s; stopped = false; goroutines = 0 }

-- The readings of the ticks.
abbrev pub ticks {κ} : {T : Type κ} → List (Signal T) → List T
ticks [] = []
ticks (start_called ∷ es) = ticks es
ticks (stop_called ∷ es) = ticks es
ticks (returned ∷ es) = ticks es
ticks (ticked t ∷ es) = t ∷ ticks es

module _ {ℓ κ} {S : Type ℓ} {T : Type κ} (tick : S → T → S) where
  abbrev pub work : S → List T → S
  work s [] = s
  work s (t ∷ ts) = work (tick s t) ts

  -- `close` of the channel panics the second time.
  unfoldable pub step : Worker S → Signal T → Ran (Worker S)
  step w start_called = at (record w { goroutines = w.goroutines + 1 })
  step w stop_called = if w.stopped then crashed else at (record w { stopped = true })
  step w returned =
      if ltb 0 w.goroutines
      then if w.stopped then at (record w { goroutines = w.goroutines - 1 }) else stuck
      else stuck
  step w (ticked t) = if ltb 0 w.goroutines then at (record w { inner = tick w.inner t }) else stuck

  -- A run worked on the readings of its ticks, in their order.
  abbrev pub Worked : S → List (Signal T) → Ran (Worker S) → Type ℓ
  Worked s es stuck = Unit {ℓ}
  Worked s es crashed = Unit {ℓ}
  Worked s es (at w) = w.inner ≡ work s (ticks es)

  pub run-Worked : (w : Worker S) (es : List (Signal T)) → Worked w.inner es (run step w es)
  unfolding run step
  run-Worked w [] = refl
  run-Worked w (start_called ∷ es) = run-Worked (record w { goroutines = w.goroutines + 1 }) es
  run-Worked w (stop_called ∷ es) = by_test w.stopped (run-Worked (record w { stopped = true }) es)
    where
      by_test :
          (b : Bool)
          → Worked w.inner es (run step (record w { stopped = true }) es)
          → Worked w.inner es
              (bind (if b then crashed else at (record w { stopped = true })) (λ t. run step t es))
      by_test true rest = tt
      by_test false rest = rest
  run-Worked w (returned ∷ es) =
      by_tests (ltb 0 w.goroutines) w.stopped
        (run-Worked (record w { goroutines = w.goroutines - 1 }) es)
    where
      by_tests :
          (b c : Bool)
          → Worked w.inner es (run step (record w { goroutines = w.goroutines - 1 }) es)
          → Worked w.inner es (
              bind
                (if b
                  then (if c then at (record w { goroutines = w.goroutines - 1 }) else stuck)
                  else stuck)
                (λ t. run step t es))
      by_tests false c rest = tt
      by_tests true false rest = tt
      by_tests true true rest = rest
  run-Worked w (ticked t ∷ es) =
      by_test (ltb 0 w.goroutines) (run-Worked (record w { inner = tick w.inner t }) es)
    where
      by_test :
          (b : Bool)
          → Worked (tick w.inner t) es (run step (record w { inner = tick w.inner t }) es)
          → Worked w.inner (ticked t ∷ es) (
              bind
                (if b then at (record w { inner = tick w.inner t }) else stuck)
                (λ v. run step v es))
      by_test false rest = tt
      by_test true rest = later (run step (record w { inner = tick w.inner t }) es) rest
        where
          later :
              (r : Ran (Worker S)) → Worked (tick w.inner t) es r → Worked w.inner (ticked t ∷ es) r
          later stuck h = tt
          later crashed h = tt
          later (at v) h = h

  pub worked :
      (s : S) (es : List (Signal T)) (w : Worker S)
      → run step (idle s) es ≡ at w
      → w.inner ≡ work s (ticks es)
  worked s es w h = subst (Worked s es) h (run-Worked (idle s) es)
