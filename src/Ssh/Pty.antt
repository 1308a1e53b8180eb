-- ===== src/Ssh/Pty.antt =====
-- No SSH session is left behind (ssh/client.go, `OpenPTY`).
use multi_terminal.Base.{
  ℕ, ◌+◌, ◌≡◌, refl, Bool, true, false, not, ◌&&◌, ◌||◌, Option, none, some, if◌then◌else◌, arith,
}
use multi_terminal.Ssh.{
  Client, Failures, session_failed, session_on, new_session, set_up, set_up_unless, open_pty,
}

abbrev pub is_none : {A : Type 0} → Option A → Bool
is_none none = true
is_none (some a) = false

-- Some call of OpenPTY fails.
abbrev pub any_failure : Failures → Bool
any_failure f = f.session || (f.request || f.stdin || f.stdout || f.stderr || f.shell)

set_up_lem :
    (f : Failures) (sessions : ℕ)
    → let o = set_up f (sessions + 1) in
      (is_none o.error ≡ not (f.request || f.stdin || f.stdout || f.stderr || f.shell))
      × (o.sessions ≡ (if is_none o.error then sessions + 1 else sessions))
unfolding set_up
set_up_lem f sessions = ground arith

set_up_on_lem :
    (connection : Option ℕ) (f : Failures) (sessions : ℕ)
    → let o = set_up_unless f (session_on connection f.session sessions) in
      (is_none o.error ≡ (not (is_none connection) && not (any_failure f)))
      × (o.sessions ≡ (if is_none o.error then sessions + 1 else sessions))
unfolding set_up_unless session_on
set_up_on_lem none f sessions = (refl, refl)
set_up_on_lem (some connection) f sessions = by_session f.session
  where
    by_session :
        (fails : Bool)
        → let rest = f.request || f.stdin || f.stdout || f.stderr || f.shell in
          let o =
            set_up_unless f
              (if fails then (some session_failed, sessions) else (none, sessions + 1)) in
          (is_none o.error ≡ not (fails || rest))
          × (o.sessions ≡ (if is_none o.error then sessions + 1 else sessions))
    by_session true = (refl, refl)
    by_session false = set_up_lem f sessions

-- `OpenPTY` succeeds exactly if the client is connected and no call fails, and then one more session is
-- open; on every error no more sessions are open than before.
pub open_pty_lem :
    (c : Client) (f : Failures) (sessions : ℕ)
    → let o = open_pty c f sessions in
      (is_none o.error ≡ (not (is_none c.connection) && not (any_failure f)))
      × (o.sessions ≡ (if is_none o.error then sessions + 1 else sessions))
unfolding open_pty new_session
open_pty_lem c f sessions = set_up_on_lem c.connection f sessions
