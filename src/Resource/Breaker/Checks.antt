-- ===== src/Resource/Breaker/Checks.antt =====
-- What the breaker's answers depend on (resource/circuit_breaker.go).
use multi_terminal.Base.{
  ℕ, suc, ◌%◌, ◌≡◌, ◌↔◌, refl, true, false, Option, none, some, List, [], ◌∷◌, arith, if◌then◌else◌,
  ◌&&◌, ltb,
}
use multi_terminal.Resource.Breaker.{
  CircuitState, circuit_normal, circuit_warning, circuit_open, CircuitBreaker, fd_warning_ratio,
  fd_danger_ratio, usage_at_least, int32_mod, new_circuit_breaker, check_and_update, is_open,
  allow_connection, monitor,
}

-- The last reading that was no error, with one from before as default.
abbrev pub last_reading : Option ℕ → List (Option ℕ) → Option ℕ
last_reading before [] = before
last_reading before (none ∷ later) = last_reading before later
last_reading before (some n ∷ later) = last_reading (some n) later

-- The state that a reading means.
abbrev pub state_of : ℕ → Option ℕ → CircuitState
state_of limit none = circuit_normal
state_of limit (some n) =
    if usage_at_least fd_danger_ratio n limit
    then circuit_open
    else if usage_at_least fd_warning_ratio n limit
    then circuit_warning
    else circuit_normal

-- How many warnings came last in a row, errors not counted; `before` is the count from before.
abbrev pub warnings : ℕ → ℕ → List (Option ℕ) → ℕ
warnings limit before [] = before
warnings limit before (none ∷ later) = warnings limit before later
warnings limit before (some n ∷ later) =
    let next : ℕ =
      if usage_at_least fd_danger_ratio n limit
      then 0
      else if usage_at_least fd_warning_ratio n limit
      then suc before
      else 0 in
    warnings limit next later

record Reads (cb : CircuitBreaker) (limit : ℕ) (reading : Option ℕ) (count : ℕ) : Type 0 where
  limited : cb.fd_limit ≡ limit
  classified : cb.state ≡ state_of limit reading
  counted : cb.warning_count ≡ count % int32_mod
  never_half_open : cb.open_until ≡ 0

check-Reads :
    (cb : CircuitBreaker) (limit : ℕ) (reading : Option ℕ) (count n : ℕ)
    → Reads cb limit reading count
    → Reads (check_and_update cb (some n)) limit (some n) (warnings limit count (some n ∷ []))
unfolding check_and_update
check-Reads cb limit reading count n r = record {
  limited = ground (arith, r.limited);
  classified = ground (arith, r.limited);
  counted = ground (arith, r.limited, r.counted);
  never_half_open = ground (arith, r.never_half_open);
}

monitor-Reads :
    (readings : List (Option ℕ)) (cb : CircuitBreaker) (limit : ℕ) (reading : Option ℕ) (count : ℕ)
    → Reads cb limit reading count
    → Reads
        (monitor cb readings)
        limit
        (last_reading reading readings)
        (warnings limit count readings)
unfolding monitor check_and_update
monitor-Reads [] cb limit reading count r = r
monitor-Reads (none ∷ later) cb limit reading count r = monitor-Reads later cb limit reading count r
monitor-Reads (some n ∷ later) cb limit reading count r =
    monitor-Reads later (check_and_update cb (some n)) limit (some n) _
      (check-Reads cb limit reading count n r)

new-Reads :
    (limit : ℕ) (readings : List (Option ℕ))
    → Reads
        (monitor (new_circuit_breaker limit) readings)
        limit
        (last_reading none readings)
        (warnings limit 0 readings)
unfolding new_circuit_breaker
new-Reads limit readings =
    monitor-Reads readings _ limit none 0
      (record { limited = refl; classified = refl; counted = refl; never_half_open = refl })

-- After any readings the breaker's state is that of the last one that was no error, and its counter
-- is the number of warnings in a row at the end, modulo 2^32.
pub monitor_state :
    (limit : ℕ) (readings : List (Option ℕ))
    → let cb = monitor (new_circuit_breaker limit) readings in
      (cb.state ≡ state_of limit (last_reading none readings))
      × (cb.warning_count ≡ warnings limit 0 readings % int32_mod)
monitor_state limit readings = let r = new-Reads limit readings in (r.classified, r.counted)

-- No connection is let through half-open: nothing sets `openUntil`, so after any readings and at any
-- time a connection is refused exactly if the last reading that was no error was in danger.
pub allow_connection_iff :
    (limit : ℕ) (readings : List (Option ℕ)) (now : ℕ)
    → (allow_connection (monitor (new_circuit_breaker limit) readings) now ≡ false)
      ↔ (state_of limit (last_reading none readings) ≡ circuit_open)
unfolding allow_connection
allow_connection_iff limit readings now =
    let r = new-Reads limit readings in
    rw (r.classified, r.never_half_open) (refused_iff (state_of limit (last_reading none readings)))
  where
    refused_iff :
        (s : CircuitState)
        → ((if is_open s then (if ltb 0 0 && ltb 0 now then true else false) else true) ≡ false)
          ↔ (s ≡ circuit_open)
    refused_iff circuit_normal = ((λ e. cc), (λ e. cc))
    refused_iff circuit_warning = ((λ e. cc), (λ e. cc))
    refused_iff circuit_open = ((λ e. refl), (λ e. refl))
