-- ===== src/Session/Sweep/Race.antt =====
-- What `cleanup` deletes while clients come back (manager.go and reconnect.go).
use multi_terminal.Base.{
  ℕ, ◌+◌, ◌≤◌, ◌<◌, ◌≡◌, refl, subst, Bool, true, false, some, List, not, if◌then◌else◌, lt→ltb,
  ==_refl,
}
use multi_terminal.Base.Steps.{at, run, reached, Any, all-Any}
use multi_terminal.Session.{
  is_detached, is_active, since_exceeds, default_reconnect_ttl, Session, Manager, get,
  can_reconnect,
}
use multi_terminal.Session.Sweep.{between, saw_stale, Sweep, Event}
use multi_terminal.Session.Sweep.Visits.{Watched}
use multi_terminal.Session.Sweep.Orderly.{IsSwept, none_visited, orderly_step, orderly-IsSwept}

refused :
    (s : Session) (now : ℕ)
    → (is_detached s.state ≡ true → s.last_active_at + default_reconnect_ttl < now)
    → can_reconnect s now ≡ false
unfolding can_reconnect
refused s now old = by_state (is_detached s.state) refl
  where
    by_state :
        (d : Bool)
        → is_detached s.state ≡ d
        → (if not d then false else not (since_exceeds s.last_active_at default_reconnect_ttl now))
          ≡ false
    by_state false e = refl
    by_state true e = rw (lt→ltb _ now (old e)) refl

pub sweep_spares_active :
    (slack : ℕ) (m : Manager) (clock : ℕ) (es : List Event) (u : Sweep) (id : ℕ) (s : Session)
    → default_reconnect_ttl + slack ≤ m.ttl
    → run
        (orderly_step slack)
        (record { manager = m; clock = clock; visit = between; left = false })
        es
      ≡ at u
    → u.visit ≡ saw_stale id
    → get u.manager id ≡ some s
    → (is_active s.state ≡ false) × (can_reconnect s u.clock ≡ false)
sweep_spares_active slack m clock es u id s patient h there found =
    let first : Sweep = record { manager = m; clock = clock; visit = between; left = false } in
    let k : IsSwept slack u =
      reached (orderly_step slack) (IsSwept slack) Any first u es
        (λ v e any k. orderly-IsSwept slack v e k) (all-Any es)
        (record { patient = patient; watched = none_visited false clock (get m) }) h in
    let w : Watched (saw_stale id) u.left u.clock (get u.manager) =
      subst (λ v. Watched v u.left u.clock (get u.manager)) there k.watched in
    let dead = (w id s (==_refl id) found).1 in (dead.0, refused s u.clock dead.1)
