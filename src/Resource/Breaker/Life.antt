-- ===== src/Resource/Breaker/Life.antt =====
-- gateway/internal/resource/circuit_breaker.go: `Start`, `Stop` and the goroutine of `monitorLoop`.
-- A tick reads what `GetCurrentFDUsage` gives.
use multi_terminal.Base.{ℕ, ◌≡◌, ◌↔◌, refl, sym, subst, ◌∙◌, false, Option, none, List, [], ◌∷◌}
use multi_terminal.Base.Steps.{Ran, at, run}
use multi_terminal.Base.Worker
use multi_terminal.Base.Worker.{Worker, Signal, idle, ticks, work, worked}
use multi_terminal.Resource.Breaker.{
  CircuitBreaker, circuit_open, new_circuit_breaker, check_and_update, monitor, allow_connection,
}
use multi_terminal.Resource.Breaker.Checks.{state_of, last_reading, allow_connection_iff}

unfoldable pub newborn : ℕ → Worker CircuitBreaker
newborn limit = idle (new_circuit_breaker limit)

unfoldable pub monitor_loop :
    Worker CircuitBreaker → Signal (Option ℕ) → Ran (Worker CircuitBreaker)
monitor_loop = Worker.step check_and_update

work-monitor :
    (cb : CircuitBreaker) (readings : List (Option ℕ))
    → work check_and_update cb readings ≡ monitor cb readings
unfolding monitor
work-monitor cb [] = refl
work-monitor cb (r ∷ readings) = work-monitor (check_and_update cb r) readings

-- In every life of a breaker, with any starts, stops and ticks: a connection is refused exactly if the
-- last descriptor count that could be read was in danger. No connection is let through half-open.
pub breaker_refuses_iff :
    (limit : ℕ) (es : List (Signal (Option ℕ))) (w : Worker CircuitBreaker) (now : ℕ)
    → run monitor_loop (newborn limit) es ≡ at w
    → (allow_connection w.inner now ≡ false)
      ↔ (state_of limit (last_reading none (ticks es)) ≡ circuit_open)
unfolding monitor_loop newborn
breaker_refuses_iff limit es w now h =
    subst
      (λ cb.
        (allow_connection cb now ≡ false)
        ↔ (state_of limit (last_reading none (ticks es)) ≡ circuit_open))
      (sym (
        worked check_and_update (new_circuit_breaker limit) es w h
        ∙ work-monitor (new_circuit_breaker limit) (ticks es)))
      (allow_connection_iff limit (ticks es) now)
