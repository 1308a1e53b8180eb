-- ===== src/Base/Outcome.antt =====
-- A computation of Go that returns, or ends in a run-time panic (a slice out of range, a closed
-- channel). A Go error is a value, and stands inside the result.

pub data Outcome {ℓ} (A : Type ℓ) : Type ℓ where
  ret : A → Outcome A
  panic : Outcome A

infixl 5 ◌>>=◌
abbrev pub ◌>>=◌ {ℓ κ} : {A : Type ℓ} {B : Type κ} → Outcome A → (A → Outcome B) → Outcome B
ret a >>= f = f a
panic >>= f = panic
