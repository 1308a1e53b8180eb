-- ===== src/Probe/Tests.antt =====
-- The theorems on the probe at a silent shell, and at one that shows a prompt.
use multi_terminal.Base.{ℕ, ◌*◌, ◌^◌, ◌≡◌, refl, ◌⊎◌, false, true, some, [], ◌∷◌, arith}
use multi_terminal.Session.{
  active, prompt_unknown, prompt_shell, Session, Manager, default_ttl, get,
}
use multi_terminal.Probe.{ProbeResult, got, timed_out, Reading, answered, panicked, probe_session}
use multi_terminal.Probe.Rounds.{Returned, classify, probe_session-Returned, probe_session-Truthful}

abbrev shell : Session
shell = record {
  session_id = 7;
  user_id = "u";
  host_id = "h";
  cols = 80;
  rows = 24;
  state = active;
  last_active_at = 0;
  write_buffer_size = 0;
  is_slow = false;
  prompt_state = prompt_unknown;
  has_stream = true;
}

abbrev one_shell : Manager
one_shell = record { sessions = (7, shell) ∷ []; ttl = default_ttl }

-- Every read times out, one nanosecond after the other.
abbrev silence : ℕ → Reading
silence i = record { now = i; result = timed_out }

probe_session-Returned_example :
    Returned (probe_session silence false 0 (3 * 10 ^ 9) one_shell 7)
    ⊎ ((s : Session) × (get one_shell 7 ≡ some s)
        × (s.has_stream ≡ false)
        × (probe_session silence false 0 (3 * 10 ^ 9) one_shell 7 ≡ panicked))
probe_session-Returned_example =
    probe_session-Returned silence false 0 (3 * 10 ^ 9) one_shell 7 (omega arith) (λ i. omega arith)
      (λ i e. cc) (omega arith)

-- `a$ `
abbrev prompting : ℕ → Reading
prompting i = record { now = i; result = got (97 ∷ 36 ∷ 32 ∷ []) }

abbrev prompt : ProbeResult
prompt = record { session_id = 7; prompt_state = prompt_shell; raw_response = 97 ∷ 36 ∷ 32 ∷ [] }

prompted : probe_session prompting false 0 1 one_shell 7 ≡ answered prompt
unfolding probe_session multi_terminal.Probe.probe_found get multi_terminal.Base.Maps.lookup
    multi_terminal.Probe.probe_stream multi_terminal.Probe.probe_loop
    multi_terminal.Probe.after_read multi_terminal.Probe.analyse multi_terminal.Ansi.has_prompt
    multi_terminal.Ansi.all_space
prompted = refl

probe_session-Truthful_example :
    (prompt.session_id ≡ 7) × (prompt.prompt_state ≡ classify prompt.raw_response)
probe_session-Truthful_example =
    probe_session-Truthful prompting false 0 1 one_shell 7 prompt prompted
