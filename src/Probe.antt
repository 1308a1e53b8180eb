-- ===== src/Probe.antt =====
-- gateway/internal/session/context_checker.go: what runs in a session's terminal.
-- The shell's stream is outside: `write_fails` says whether the probe's write ends in an error, and
-- `readings` gives, for each round of the loop, the time of the loop's test and what `Read` does; a
-- Read can also block for ever. `deadline` is the time of the start plus ProbeTimeout. The loop takes
-- fuel, a round each.
pub mod Rounds
mod Tests
use multi_terminal.Base.{
  ℕ, zero, suc, ◌+◌, ◌*◌, ◌^◌, Bool, true, false, Option, none, some, List, [], ◌∷◌, ◌++◌, ltb,
  if◌then◌else◌,
}
use multi_terminal.Base.Slices.{Bytes}
use multi_terminal.Ansi.{has_prompt, has_ansi}
use multi_terminal.Session.{
  Session, Manager, PromptState, prompt_shell, prompt_tui, prompt_unknown, get,
}

-- `2 * time.Second`
abbrev pub probe_timeout : ℕ
probe_timeout = 2 * 10 ^ 9

pub record ProbeResult : Type 0 where
  pub session_id : ℕ
  pub prompt_state : PromptState
  pub raw_response : Bytes

-- What `Read` returns: bytes, a timeout, an error with the text "EOF", or another error.
pub data ReadResult : Type 0 where
  got : Bytes → ReadResult
  timed_out end_of_file read_error blocks : ReadResult

pub record Reading : Type 0 where
  pub now : ℕ
  pub result : ReadResult

-- How a probe ends: an answer or an error of ProbeSession, a Read that never returns, no fuel, or the
-- panic of a write to a stream that was not set.
pub data Probed : Type 0 where
  answered : ProbeResult → Probed
  session_missing write_failed read_failed hangs out_of_fuel panicked : Probed

abbrev pub unknown : ℕ → Bytes → Probed
unknown id raw =
    answered (record { session_id = id; prompt_state = prompt_unknown; raw_response = raw })

-- The tests on the response so far; `more` is the rest of the loop.
unfoldable pub analyse : ℕ → Bytes → Probed → Probed
analyse id raw more =
    if has_prompt raw
    then answered (record { session_id = id; prompt_state = prompt_shell; raw_response = raw })
    else if has_ansi raw
    then answered (record { session_id = id; prompt_state = prompt_tui; raw_response = raw })
    else more

-- A round on what `Read` returned, with the rest of the loop as a function of the response.
unfoldable pub after_read : ℕ → Bytes → ReadResult → (Bytes → Probed) → Probed
after_read id raw (got bytes) more = analyse id (raw ++ bytes) (more (raw ++ bytes))
after_read id raw timed_out more = unknown id raw
after_read id raw end_of_file more = unknown id raw
after_read id raw read_error more = read_failed
after_read id raw blocks more = hangs

module _ (readings : ℕ → Reading) (deadline : ℕ) where
  unfoldable pub probe_loop : ℕ → ℕ → ℕ → Bytes → Probed
  probe_loop zero id k raw = out_of_fuel
  probe_loop (suc fuel) id k raw =
      let round = after_read id raw (readings k).result (λ next. probe_loop fuel id (suc k) next) in
      if ltb (readings k).now deadline then round else unknown id raw

-- From the write on.
unfoldable pub probe_stream : (ℕ → Reading) → Bool → ℕ → ℕ → ℕ → Probed
probe_stream readings write_fails started fuel id =
    if write_fails then write_failed else probe_loop readings (started + probe_timeout) fuel id 0 []

unfoldable pub probe_found : (ℕ → Reading) → Bool → ℕ → ℕ → ℕ → Option Session → Probed
probe_found readings write_fails started fuel id none = session_missing
probe_found readings write_fails started fuel id (some s) =
    if s.has_stream then probe_stream readings write_fails started fuel id else panicked

unfoldable pub probe_session : (ℕ → Reading) → Bool → ℕ → ℕ → Manager → ℕ → Probed
probe_session readings write_fails started fuel m id =
    probe_found readings write_fails started fuel id (get m id)
