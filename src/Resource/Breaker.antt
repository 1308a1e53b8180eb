-- ===== src/Resource/Breaker.antt =====
-- gateway/internal/resource/circuit_breaker.go: refuses connections when descriptors run short.
-- The usage `float64(current) / float64(fdLimit)` is compared with 0.70 and 0.85. Division and the
-- constants are rounded to the nearest float64, which keeps the order of a quotient and a ratio of
-- hundredths for limits below 2^46, so the tests are those of whole numbers; 0 / 0 is NaN, which is
-- above nothing, and n / 0 is +Inf. The atomics make each access one step; the log is left out.
pub mod Checks
pub mod Life
use multi_terminal.Base.{
  ℕ, ◌+◌, ◌*◌, ◌%◌, ◌^◌, Bool, true, false, ◌&&◌, Option, none, some, List, [], ◌∷◌, ltb, leb, ◌==◌,
  if◌then◌else◌,
}

pub data CircuitState : Type 0 where
  circuit_normal circuit_warning circuit_open : CircuitState

pub record CircuitBreaker : Type 0 where
  pub state : CircuitState
  pub fd_limit : ℕ
  pub current_fd : ℕ
  pub warning_count : ℕ
  pub open_until : ℕ

-- In hundredths: FDWarningRatio and FDDangerRatio.
abbrev pub fd_warning_ratio : ℕ
fd_warning_ratio = 70

abbrev pub fd_danger_ratio : ℕ
fd_danger_ratio = 85

-- `usage >= ratio`
abbrev pub usage_at_least : ℕ → ℕ → ℕ → Bool
usage_at_least ratio current limit =
    if limit == 0 then ltb 0 current else leb (ratio * limit) (100 * current)

-- An int32 is its bit pattern.
abbrev pub int32_mod : ℕ
int32_mod = 2 ^ 32

unfoldable pub new_circuit_breaker : ℕ → CircuitBreaker
new_circuit_breaker limit = record {
  state = circuit_normal;
  fd_limit = limit;
  current_fd = 0;
  warning_count = 0;
  open_until = 0;
}

-- `checkAndUpdate` on what `GetCurrentFDUsage` gives, `none` for its error.
unfoldable pub check_and_update : CircuitBreaker → Option ℕ → CircuitBreaker
check_and_update cb none = cb
check_and_update cb (some current) =
    if usage_at_least fd_danger_ratio current cb.fd_limit
    then record cb { current_fd = current; state = circuit_open; warning_count = 0 }
    else if usage_at_least fd_warning_ratio current cb.fd_limit
    then record cb {
      current_fd = current;
      state = circuit_warning;
      warning_count = (cb.warning_count + 1) % int32_mod;
    }
    else record cb { current_fd = current; state = circuit_normal; warning_count = 0 }

abbrev pub is_open : CircuitState → Bool
is_open circuit_open = true
is_open _ = false

unfoldable pub allow_connection : CircuitBreaker → ℕ → Bool
allow_connection cb now =
    if is_open cb.state
    then (if ltb 0 cb.open_until && ltb cb.open_until now then true else false)
    else true

-- The ticks of `monitorLoop`, with the readings in order.
unfoldable pub monitor : CircuitBreaker → List (Option ℕ) → CircuitBreaker
monitor cb [] = cb
monitor cb (usage ∷ later) = monitor (check_and_update cb usage) later
