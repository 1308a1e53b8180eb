-- ===== src/Session/Cleaning.antt =====
-- gateway/internal/session/manager.go: `cleanupLoop`, which `NewManager` starts and `Stop` ends, and
-- `Range`. A tick reads the time. The calls of others are in `Lifecycle` and `Sweep`.
use multi_terminal.Base.{
  ℕ, ◌≡◌, refl, ap, subst, ◌∙◌, Bool, true, false, not, Option, List, [], ◌∷◌, map, if◌then◌else◌,
}
use multi_terminal.Base.Maps.{Distinct, keep-Distinct}
use multi_terminal.Base.Steps.{Ran, at, run}
use multi_terminal.Base.Worker
use multi_terminal.Base.Worker.{Worker, Signal, ticks, work, run-Worked, Worked}
use multi_terminal.Session.{Session, Manager, is_stale, cleanup, get}
use multi_terminal.Session.Registry.{unless_stale, get-cleanup}

-- What the goroutine of a manager works on.
unfoldable pub tended : Manager → Worker Manager
tended m = record { inner = m; stopped = false; goroutines = 1 }

unfoldable pub cleanup_loop : Worker Manager → Signal ℕ → Ran (Worker Manager)
cleanup_loop = Worker.step cleanup

-- `Range`: the sessions that the callback is called on.
unfoldable pub range_sessions : (Session → Bool) → List (ℕ × Session) → List Session
range_sessions f [] = []
range_sessions f ((id, s) ∷ m) = let rest = range_sessions f m in if f s then s ∷ rest else s ∷ []

-- What ticks leave of what an id is bound to.
abbrev pub left_by : ℕ → ℕ → List ℕ → Option Session → Option Session
left_by ttl id [] o = o
left_by ttl id (now ∷ later) o = left_by ttl id later (unless_stale ttl now id o)

get-work :
    (m : Manager) (id : ℕ) (times : List ℕ)
    → Distinct m.sessions
    → get (work cleanup m times) id ≡ left_by m.ttl id times (get m id)
unfolding cleanup
get-work m id [] d = refl
get-work m id (now ∷ later) d =
    get-work (cleanup m now) id later (keep-Distinct (λ e. not (is_stale m.ttl now e)) m.sessions d)
    ∙ ap (left_by m.ttl id later) (get-cleanup m now id d)

-- In every life of a manager's loop each tick acts on each session alone: a session is gone exactly if
-- some tick found it detached for longer than the manager's limit, and is as it was else.
pub tended_lem :
    (m : Manager) (es : List (Signal ℕ)) (w : Worker Manager) (id : ℕ)
    → Distinct m.sessions
    → run cleanup_loop (tended m) es ≡ at w
    → get w.inner id ≡ left_by m.ttl id (ticks es) (get m id)
unfolding cleanup_loop tended
tended_lem m es w id d h =
    ap (λ n. get n id)
      (subst (Worked cleanup m es) h
        (run-Worked cleanup (record { inner = m; stopped = false; goroutines = 1 }) es))
    ∙ get-work m id (ticks es) d

-- A callback that never stops the walk sees every session.
pub range_sessions_lem :
    (f : Session → Bool) (m : List (ℕ × Session))
    → ((s : Session) → f s ≡ true)
    → range_sessions f m ≡ map (λ e. e.1) m
unfolding range_sessions
range_sessions_lem f [] on = refl
range_sessions_lem f ((id, s) ∷ m) on = rw (on s) (ap (λ l. s ∷ l) (range_sessions_lem f m on))
