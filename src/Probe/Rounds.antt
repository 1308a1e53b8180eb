-- ===== src/Probe/Rounds.antt =====
-- The rounds of the probe's loop (session/context_checker.go).
use multi_terminal.Base.{
  ℕ, zero, suc, ◌+◌, ◌≤◌, ◌<◌, ◌≡◌, ◌≢◌, refl, sym, subst, tests, Bool, true, false, Option, none,
  some, [], ◌++◌, ltb, ◌⊎◌, inl, inr, Bool-cases, if◌then◌else◌, arith,
}
use multi_terminal.Base.Slices.{Bytes}
use multi_terminal.Ansi.{has_prompt, has_ansi}
use multi_terminal.Session.{
  Session, Manager, PromptState, prompt_shell, prompt_tui, prompt_unknown, get,
}
use multi_terminal.Probe.{
  probe_timeout, ProbeResult, ReadResult, got, timed_out, end_of_file, read_error, blocks, Reading,
  Probed, answered, session_missing, write_failed, read_failed, hangs, out_of_fuel, panicked,
  unknown, analyse, after_read, probe_loop, probe_stream, probe_found, probe_session,
}

-- What a response shows.
abbrev pub classify : Bytes → PromptState
classify raw =
    if has_prompt raw then prompt_shell else if has_ansi raw then prompt_tui else prompt_unknown

-- An answer names the session and classifies the response that it has.
abbrev pub Truthful : ℕ → Probed → Type 0
Truthful id (answered r) = (r.session_id ≡ id) × (r.prompt_state ≡ classify r.raw_response)
Truthful id session_missing = Unit {0}
Truthful id write_failed = Unit {0}
Truthful id read_failed = Unit {0}
Truthful id hangs = Unit {0}
Truthful id out_of_fuel = Unit {0}
Truthful id panicked = Unit {0}

analyse-Truthful :
    (id : ℕ) (raw : Bytes) (more : Probed)
    → (classify raw ≡ prompt_unknown → Truthful id more)
    → Truthful id (analyse id raw more)
unfolding analyse
analyse-Truthful id raw more rest = by_tests (has_prompt raw) (has_ansi raw) refl refl
  where
    by_tests :
        (shell tui : Bool)
        → has_prompt raw ≡ shell
        → has_ansi raw ≡ tui
        → Truthful id (
            if shell
            then answered
                (record { session_id = id; prompt_state = prompt_shell; raw_response = raw })
            else if tui
            then answered
                (record { session_id = id; prompt_state = prompt_tui; raw_response = raw })
            else more)
    by_tests true tui p q = (refl, rw p refl)
    by_tests false true p q = (refl, rw (p, q) refl)
    by_tests false false p q = rest (rw (p, q) refl)

unknown-Truthful :
    (id : ℕ) (raw : Bytes) → classify raw ≡ prompt_unknown → Truthful id (unknown id raw)
unknown-Truthful id raw none_shown = (refl, sym none_shown)

after_read-Truthful :
    (id : ℕ) (raw : Bytes) (result : ReadResult) (more : Bytes → Probed)
    → classify raw ≡ prompt_unknown
    → ((next : Bytes) → classify next ≡ prompt_unknown → Truthful id (more next))
    → Truthful id (after_read id raw result more)
unfolding after_read
after_read-Truthful id raw (got bytes) more h rest =
    analyse-Truthful id (raw ++ bytes) (more (raw ++ bytes)) (rest (raw ++ bytes))
after_read-Truthful id raw timed_out more h rest = unknown-Truthful id raw h
after_read-Truthful id raw end_of_file more h rest = unknown-Truthful id raw h
after_read-Truthful id raw read_error more h rest = tt
after_read-Truthful id raw blocks more h rest = tt

-- The probe comes back, with an answer or an error.
abbrev pub Returned : Probed → Type 0
Returned (answered r) = Unit {0}
Returned session_missing = Unit {0}
Returned write_failed = Unit {0}
Returned read_failed = Unit {0}
Returned hangs = ⊥
Returned out_of_fuel = ⊥
Returned panicked = ⊥

analyse-Returned :
    (id : ℕ) (raw : Bytes) (more : Probed) → Returned more → Returned (analyse id raw more)
unfolding analyse
analyse-Returned id raw more v = by_tests (has_prompt raw) (has_ansi raw)
  where
    by_tests :
        (shell tui : Bool)
        → Returned (
            if shell
            then answered
                (record { session_id = id; prompt_state = prompt_shell; raw_response = raw })
            else if tui
            then answered
                (record { session_id = id; prompt_state = prompt_tui; raw_response = raw })
            else more)
    by_tests true tui = tt
    by_tests false true = tt
    by_tests false false = v

after_read-Returned :
    (id : ℕ) (raw : Bytes) (result : ReadResult) (more : Bytes → Probed)
    → result ≢ blocks
    → ((next : Bytes) → Returned (more next))
    → Returned (after_read id raw result more)
unfolding after_read
after_read-Returned id raw (got bytes) more ok rest =
    analyse-Returned id (raw ++ bytes) (more (raw ++ bytes)) (rest (raw ++ bytes))
after_read-Returned id raw timed_out more ok rest = tt
after_read-Returned id raw end_of_file more ok rest = tt
after_read-Returned id raw read_error more ok rest = tt
after_read-Returned id raw blocks more ok rest = ok refl

module _ (readings : ℕ → Reading) (deadline : ℕ) where
  probe_loop-Truthful :
      (fuel id k : ℕ) (raw : Bytes)
      → classify raw ≡ prompt_unknown
      → Truthful id (probe_loop readings deadline fuel id k raw)
  unfolding probe_loop
  probe_loop-Truthful zero id k raw h = tt
  probe_loop-Truthful (suc fuel) id k raw h = by_time (ltb (readings k).now deadline) _ (
      after_read-Truthful id raw (readings k).result _ h
        (λ next q. probe_loop-Truthful fuel id (suc k) next q))
    where
      by_time :
          (early : Bool) (round : Probed)
          → Truthful id round
          → Truthful id (if early then round else unknown id raw)
      by_time true round v = v
      by_time false round v = unknown-Truthful id raw h

  probe_loop-Returned :
      (fuel id k : ℕ) (raw : Bytes)
      → ((i : ℕ) → (readings i).now < (readings (suc i)).now)
      → ((i : ℕ) → (readings i).result ≢ blocks)
      → 0 < fuel
      → deadline < (readings k).now + fuel
      → Returned (probe_loop readings deadline fuel id k raw)
  unfolding probe_loop
  probe_loop-Returned zero id k raw later ok some_fuel enough = absurd (omega arith)
  probe_loop-Returned (suc fuel) id k raw later ok some_fuel enough =
      by_time (ltb (readings k).now deadline) refl _ (λ early.
        after_read-Returned id raw (readings k).result _ (ok k) (λ next.
          probe_loop-Returned fuel id (suc k) next later ok (omega (tests, early, enough))
            (omega (arith, later k, enough))))
    where
      by_time :
          (early : Bool)
          → ltb (readings k).now deadline ≡ early
          → (round : Probed) → (ltb (readings k).now deadline ≡ true → Returned round)
          → Returned (if early then round else unknown id raw)
      by_time true e round v = v e
      by_time false e round v = tt

-- A probe comes back, whatever the stream sends, if every Read comes back and time passes between the
-- rounds: as many rounds as the timeout has nanoseconds, and one more, are enough. Or it panics, and
-- then the session's stream was not set.
pub probe_session-Returned :
    (readings : ℕ → Reading) (write_fails : Bool) (started fuel : ℕ) (m : Manager) (id : ℕ)
    → started ≤ (readings 0).now
    → ((i : ℕ) → (readings i).now < (readings (suc i)).now)
    → ((i : ℕ) → (readings i).result ≢ blocks)
    → probe_timeout < fuel
    → Returned (probe_session readings write_fails started fuel m id)
      ⊎ ((s : Session) × (get m id ≡ some s)
          × (s.has_stream ≡ false)
          × (probe_session readings write_fails started fuel m id ≡ panicked))
unfolding probe_session probe_found probe_stream has_prompt has_ansi
probe_session-Returned readings write_fails started fuel m id first later ok enough =
    by_session (get m id) refl
  where
    loop : Returned (probe_loop readings (started + probe_timeout) fuel id 0 [])
    loop =
        probe_loop-Returned readings (started + probe_timeout) fuel id 0 [] later ok (omega arith)
          (omega arith)

    by_write :
        (fails : Bool)
        → Returned (
            if fails
            then write_failed
            else probe_loop readings (started + probe_timeout) fuel id 0 [])
    by_write true = tt
    by_write false = loop

    by_session :
        (o : Option Session)
        → get m id ≡ o
        → Returned (probe_found readings write_fails started fuel id o)
          ⊎ ((s : Session) × (get m id ≡ some s)
              × (s.has_stream ≡ false)
              × (probe_found readings write_fails started fuel id o ≡ panicked))
    by_session none missing = inl tt
    by_session (some s) found = elim (Bool-cases s.has_stream) [
      | inl set ↦ inl (rw set (by_write write_fails))
      | inr unset ↦ inr (s, found, unset, rw unset refl)
    ]

-- Whatever the stream does, an answer of the probe classifies the whole response that it carries: a
-- shell exactly if that ends in a prompt, otherwise a TUI exactly if it has an escape sequence, and
-- unknown otherwise, also after a timeout, an end of file or the deadline.
pub probe_session-Truthful :
    (readings : ℕ → Reading) (write_fails : Bool) (started fuel : ℕ) (m : Manager) (id : ℕ)
    (r : ProbeResult)
    → probe_session readings write_fails started fuel m id ≡ answered r
    → (r.session_id ≡ id) × (r.prompt_state ≡ classify r.raw_response)
unfolding probe_session probe_found probe_stream has_prompt has_ansi
probe_session-Truthful readings write_fails started fuel m id r h =
    subst (Truthful id) h (by_session (get m id))
  where
    by_write :
        (fails : Bool)
        → Truthful id (
            if fails
            then write_failed
            else probe_loop readings (started + probe_timeout) fuel id 0 [])
    by_write true = tt
    by_write false = probe_loop-Truthful readings (started + probe_timeout) fuel id 0 [] refl

    by_session :
        (o : Option Session) → Truthful id (probe_found readings write_fails started fuel id o)
    by_session none = tt
    by_session (some s) = by_stream s.has_stream
      where
        by_stream :
            (set : Bool)
            → Truthful id
                (if set then probe_stream readings write_fails started fuel id else panicked)
        by_stream true = by_write write_fails
        by_stream false = tt
