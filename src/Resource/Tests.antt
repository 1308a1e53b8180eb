-- ===== src/Resource/Tests.antt =====
-- The theorems on internal/resource at small inputs.
use multi_terminal.Base.{
  ℕ, ◌≤◌, ◌<◌, ◌≡◌, ◌↔◌, refl, true, false, Option, none, some, List, [], ◌∷◌, length, arith,
}
use multi_terminal.Resource.Limiter.{RateLimiter, new_rate_limiter, recent, allow}
use multi_terminal.Resource.Limiter.Limit.{
  Log, times_of, History, start, asked, logged, allow_iff, window_bounded,
}
use multi_terminal.Base.Steps.{at, run}
use multi_terminal.Base.Worker.{Worker, Signal, start_called, stop_called, returned, ticked}
use multi_terminal.Resource.Breaker.Life.{newborn, monitor_loop, breaker_refuses_iff}
use multi_terminal.Resource.Breaker.{
  CircuitBreaker, circuit_open, new_circuit_breaker, allow_connection, monitor,
}
use multi_terminal.Resource.Breaker.Checks.{last_reading, state_of}

-- One request, of a limiter that lets one through in ten nanoseconds.
abbrev after_one : RateLimiter
after_one = (allow (new_rate_limiter 10 1) "a" 5).0

abbrev one_logged : Log
one_logged = logged (allow (new_rate_limiter 10 1) "a" 5).1 [] "a" 5

one_request : History 10 1 after_one one_logged 5
one_request = asked "a" 5 (omega arith) start

allow_iff_example :
    ((allow after_one "a" 14).1 ≡ true) ↔ (length (recent 10 14 (times_of "a" one_logged)) < 1)
allow_iff_example = allow_iff 10 1 "a" 14 one_request (omega arith)

window_bounded_example : length (recent 10 14 (times_of "a" one_logged)) ≤ 1
window_bounded_example = window_bounded 10 1 "a" 14 one_request (omega arith)

-- Two readings in the range of the warning, then one in danger, and an error.
abbrev readings : List (Option ℕ)
readings = some 75 ∷ some 80 ∷ some 90 ∷ none ∷ []

-- The breaker's goroutine reads them, and is stopped.
abbrev breaker_life : List (Signal (Option ℕ))
breaker_life =
    start_called
    ∷ ticked (some 75)
    ∷ ticked (some 80)
    ∷ ticked (some 90)
    ∷ ticked none
    ∷ stop_called
    ∷ returned
    ∷ []

abbrev retired : Worker CircuitBreaker
retired = record {
  inner = monitor (new_circuit_breaker 100) readings;
  stopped = true;
  goroutines = 0;
}

run-retired : run monitor_loop (newborn 100) breaker_life ≡ at retired
unfolding run monitor_loop newborn monitor multi_terminal.Base.Worker.step
run-retired = refl

breaker_refuses_iff_example :
    (allow_connection retired.inner 5 ≡ false)
    ↔ (state_of 100 (last_reading none readings) ≡ circuit_open)
breaker_refuses_iff_example = breaker_refuses_iff 100 breaker_life retired 5 run-retired
