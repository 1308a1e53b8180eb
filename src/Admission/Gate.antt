-- ===== src/Admission/Gate.antt =====
-- What a request changes (server.go, `HandleWS`).
use Prim.Native.String.{String}
use multi_terminal.Base.{
  ℕ, ◌≡◌, refl, sym, ap, subst, ◌∙◌, Bool, true, false, ◌&&◌, not, Option, none, some,
  if◌then◌else◌,
}
use multi_terminal.Session.{
  active, Session, Manager, get, can_reconnect, is_expired, has_expired, not_detached, Reconnected,
  session, failed, handle_reconnect,
}
use multi_terminal.Session.Registry.{answer_for, handle_reconnect_lem}
use multi_terminal.Resource.Limiter.{RateLimiter, allow}
use multi_terminal.Resource.Breaker.{CircuitBreaker, allow_connection}
use multi_terminal.Server.{new_conn, run_register}
use multi_terminal.Admission.{
  Gateway, Answer, rate_limited, unavailable, not_upgraded, connected, reconnected, over_rate,
  breaker_refuses, connect, resume, reconnect, open_connection, handle_ws,
}

-- Whether the request ends with a connection.
abbrev pub is_admitted : Answer → Bool
is_admitted connected = true
is_admitted (reconnected s) = true
is_admitted rate_limited = false
is_admitted unavailable = false
is_admitted not_upgraded = false

-- The session that a request resumes.
abbrev pub resumed : Answer → Option Session
resumed (reconnected s) = some s
resumed connected = none
resumed rate_limited = none
resumed unavailable = none
resumed not_upgraded = none

-- What the limiter and the breaker say; one that was not set up lets everything through.
abbrev pub rate_ok : Option RateLimiter → String → ℕ → Bool
rate_ok none ip now = true
rate_ok (some rl) ip now = (allow rl ip now).1

abbrev pub breaker_ok : Option CircuitBreaker → ℕ → Bool
breaker_ok none now = true
breaker_ok (some cb) now = allow_connection cb now

-- A session that can be reconnected is handed out as active as of now.
abbrev pub woken : ℕ → Option Session → Option Session
woken now none = none
woken now (some s) =
    if can_reconnect s now then some (record s { state = active; last_active_at = now }) else none

abbrev pub resumable : Option Manager → Option ℕ → ℕ → Option Session
resumable none wanted now = none
resumable (some m) none now = none
resumable (some m) (some id) now = woken now (get m id)

-- After the upgrade every request is admitted, and the hub gets one connection.
record Joins (g : Gateway) (back : Option Session) (r : Gateway × Answer) : Type 0 where
  admitted : is_admitted r.1 ≡ true
  joined : r.0.hub ≡ run_register g.hub (new_conn 0)
  taken_up : resumed r.1 ≡ back

connect-Joins : (g : Gateway) → Joins g none (connect g)
unfolding connect
connect-Joins g = record { admitted = refl; joined = refl; taken_up = refl }

abbrev handed_out : Reconnected → Option Session
handed_out (session s) = some s
handed_out (failed e) = none

resume-Joins :
    (g : Gateway) (id : ℕ) (m : Manager) (r : Reconnected)
    → Joins g (handed_out r) (resume g id (m, r))
unfolding resume connect run_register new_conn
resume-Joins g id m (session s) = record { admitted = refl; joined = refl; taken_up = refl }
resume-Joins g id m (failed e) = record { admitted = refl; joined = refl; taken_up = refl }

answer-woken : (id now : ℕ) (o : Option Session) → handed_out (answer_for id now o) ≡ woken now o
answer-woken id now none = refl
answer-woken id now (some s) = by_tests (can_reconnect s now) (is_expired s now)
  where
    awake : Session
    awake = record s { state = active; last_active_at = now }

    by_tests :
        (can old : Bool)
        → handed_out (
            if can
            then session awake
            else if old
            then failed (has_expired s.session_id)
            else failed (not_detached s.session_id))
          ≡ (if can then some awake else none)
    by_tests true old = refl
    by_tests false true = refl
    by_tests false false = refl

reconnect-Joins :
    (g : Gateway) (id now : ℕ) (o : Option Manager)
    → Joins g (resumable o (some id) now) (reconnect g id now o)
unfolding reconnect
reconnect-Joins g id now none = connect-Joins g
reconnect-Joins g id now (some m) =
    subst (λ b. Joins g b (resume g id (handle_reconnect m id now)))
      (ap handed_out (handle_reconnect_lem m id now id).0 ∙ answer-woken id now (get m id))
      (resume-Joins g id (handle_reconnect m id now).0 (handle_reconnect m id now).1)

no_wish : (o : Option Manager) (now : ℕ) → resumable o none now ≡ none
no_wish none now = refl
no_wish (some m) now = refl

open_connection-Joins :
    (g : Gateway) (wanted : Option ℕ) (now : ℕ)
    → Joins g (resumable g.manager wanted now) (open_connection g wanted now)
unfolding open_connection
open_connection-Joins g none now =
    subst (λ b. Joins g b (connect g)) (sym (no_wish g.manager now)) (connect-Joins g)
open_connection-Joins g (some id) now = reconnect-Joins g id now g.manager

over_rate_lem :
    (o : Option RateLimiter) (ip : String) (now : ℕ)
    → (over_rate o ip now).1 ≡ not (rate_ok o ip now)
unfolding over_rate
over_rate_lem none ip now = refl
over_rate_lem (some rl) ip now = refl

breaker_refuses_lem :
    (o : Option CircuitBreaker) (now : ℕ) → breaker_refuses o now ≡ not (breaker_ok o now)
unfolding breaker_refuses
breaker_refuses_lem none now = refl
breaker_refuses_lem (some cb) now = refl

-- What a request is answered, and what it does to the hub.
pub record Handles (g : Gateway) (admitted : Bool) (back : Option Session) (r : Gateway × Answer)
    : Type 0 where
  let_in : is_admitted r.1 ≡ admitted
  hub_after : r.0.hub ≡ (if admitted then run_register g.hub (new_conn 0) else g.hub)
  resumes : resumed r.1 ≡ (if admitted then back else none)

pub handle_ws_admits :
    (g : Gateway) (ip : String) (now : ℕ) (upgraded : Bool) (wanted : Option ℕ)
    → Handles g
        (rate_ok g.limiter ip now && breaker_ok g.breaker now && upgraded)
        (resumable g.manager wanted now)
        (handle_ws g ip now upgraded wanted)
unfolding handle_ws
handle_ws_admits g ip now upgraded wanted =
    rw (over_rate_lem g.limiter ip now, breaker_refuses_lem g.breaker now)
      (by_tests (rate_ok g.limiter ip now) (breaker_ok g.breaker now) upgraded)
  where
    counted : Gateway
    counted = record g { limiter = (over_rate g.limiter ip now).0 }

    joins : Joins counted (resumable g.manager wanted now) (open_connection counted wanted now)
    joins = open_connection-Joins counted wanted now

    by_tests :
        (rate breaker up : Bool)
        → Handles g (rate && breaker && up) (resumable g.manager wanted now) (
            if not rate
            then (counted, rate_limited)
            else if not breaker
            then (counted, unavailable)
            else if not up
            then (counted, not_upgraded)
            else open_connection counted wanted now)
    by_tests false breaker up = record { let_in = refl; hub_after = refl; resumes = refl }
    by_tests true false up = record { let_in = refl; hub_after = refl; resumes = refl }
    by_tests true true false = record { let_in = refl; hub_after = refl; resumes = refl }
    by_tests true true true = record {
      let_in = joins.admitted;
      hub_after = joins.joined;
      resumes = joins.taken_up;
    }
