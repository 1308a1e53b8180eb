-- ===== src/Session/Sweep/Visits.antt =====
-- What a visit of `cleanup` may rely on, and the events that keep it (manager.go and reconnect.go).
use multi_terminal.Base.{
  ℕ, ◌+◌, ◌≤◌, ◌<◌, ◌≡◌, refl, sym, ap, subst, ◌∙◌, Bool, true, false, ◌||◌, Option, none, some,
  not, if◌then◌else◌, ◌==◌, ==_iff, ltb→le, arith,
}
use multi_terminal.Base.Maps.{lookup, lookup-store, lookup-delete}
use multi_terminal.Session.{
  is_detached, is_active, since_exceeds, default_reconnect_ttl, Session, Manager, register,
  unregister, get, put_back, detach, attach, attached, handle_reconnect, set_state, ReconnectError,
  Reconnected, State,
}
use multi_terminal.Session.Registry.{get-put_back}
use multi_terminal.Session.Sweep.{
  Visit, between, saw_detached, loaded, saw_stale, Sweep, is_visited,
}

-- A session that is not active and cannot be reconnected any more.
abbrev pub IsDead : ℕ → Session → Type 0
IsDead clock s =
    (is_active s.state ≡ false)
    × (is_detached s.state ≡ true → s.last_active_at + default_reconnect_ttl < clock)

-- What the callback may rely on of the session it visits, if the map still has it.
abbrev pub IsSafe : Visit → ℕ → Session → Type 0
IsSafe between clock s = Unit {0}
IsSafe (saw_detached id t) clock s = (t ≤ clock) × (is_active s.state ≡ true → t ≤ s.last_active_at)
IsSafe (loaded id t l) clock s = (t ≤ clock) × (l + default_reconnect_ttl < t → IsDead clock s)
IsSafe (saw_stale id) clock s = IsDead clock s

abbrev pub Watched : Visit → Bool → ℕ → (ℕ → Option Session) → Type 0
Watched v left clock f =
    (id : ℕ) (s : Session)
    → is_visited v id ≡ true
    → f id ≡ some s
    → (left ≡ false) × IsSafe v clock s

same_session : {s r : Session} → some s ≡ some r → s ≡ r
same_session e = cc

-- A change of one session that is safe at every visit.
pub changed-Watched :
    (v : Visit) (left : Bool) (clock id : ℕ) (m : Manager) (s s' : Session)
    → get m id ≡ some s
    → (IsSafe v clock s → IsSafe v clock s')
    → Watched v left clock (get m)
    → Watched v left clock (get (put_back m id s'))
changed-Watched v left clock id m s s' found safe w j r visited there =
    by_id (id == j) refl (sym (get-put_back m id j s') ∙ there)
  where
    by_id :
        (b : Bool)
        → (id == j) ≡ b
        → (if b then some s' else get m j) ≡ some r
        → (left ≡ false) × IsSafe v clock r
    by_id false miss e = w j r visited e
    by_id true hit e =
        let was : get m j ≡ some s = ap (get m) (sym ((==_iff id j).0 hit)) ∙ found in
        let before = w j s visited was in
        (before.0, subst (IsSafe v clock) (same_session e) (safe before.1))

-- A registration under an id that is not visited.
pub other-Watched :
    (v : Visit) (left : Bool) (clock : ℕ) (m : Manager) (s : Session)
    → is_visited v s.session_id ≡ false
    → Watched v left clock (get m)
    → Watched v (left || is_visited v s.session_id) clock (get (register m s))
unfolding get register
other-Watched v left clock m s other w j r visited there =
    by_id (s.session_id == j) refl (sym (lookup-store s.session_id j s m.sessions) ∙ there)
  where
    by_id :
        (b : Bool)
        → (s.session_id == j) ≡ b
        → (if b then some s else lookup j m.sessions) ≡ some r
        → (left || is_visited v s.session_id ≡ false) × IsSafe v clock r
    by_id true hit e =
        let same : is_visited v s.session_id ≡ is_visited v j =
          ap (is_visited v) ((==_iff s.session_id j).0 hit) in
        absurd (cc (other, visited, same))
    by_id false miss e = let before = w j r visited e in (rw (before.0, other) refl, before.1)

-- What is visited under two ids has one id.
one_visited : (v : Visit) (i j : ℕ) → is_visited v i ≡ true → is_visited v j ≡ true → i ≡ j
one_visited between i j h k = absurd (cc h)
one_visited (saw_detached n t) i j h k = sym ((==_iff n i).0 h) ∙ (==_iff n j).0 k
one_visited (loaded n t l) i j h k = sym ((==_iff n i).0 h) ∙ (==_iff n j).0 k
one_visited (saw_stale n) i j h k = sym ((==_iff n i).0 h) ∙ (==_iff n j).0 k

-- `Unregister` of any id.
pub gone-Watched :
    (v : Visit) (left : Bool) (clock id : ℕ) (m : Manager)
    → Watched v left clock (get m)
    → Watched v (left || is_visited v id) clock (get (unregister m id))
unfolding get unregister
gone-Watched v left clock id m w j r visited there =
    by_id (id == j) refl (is_visited v id) refl (sym (lookup-delete id j m.sessions) ∙ there)
  where
    by_id :
        (b : Bool)
        → (id == j) ≡ b
        → (own : Bool) → is_visited v id ≡ own
        → (if b then none else lookup j m.sessions) ≡ some r
        → (left || own ≡ false) × IsSafe v clock r
    by_id true hit own k e = absurd (cc e)
    by_id false miss true k e =
        let same : id ≡ j = one_visited v id j k visited in absurd (cc (miss, (==_iff id j).1 same))
    by_id false miss false k e = let before = w j r visited e in (rw before.0 refl, before.1)

later-IsDead : (clock n : ℕ) (s : Session) → IsDead clock s → IsDead (clock + n) s
later-IsDead clock n s dead = (dead.0, λ d. omega (arith, dead.1 d))

later-IsSafe : (v : Visit) (clock n : ℕ) (s : Session) → IsSafe v clock s → IsSafe v (clock + n) s
later-IsSafe between clock n s ok = tt
later-IsSafe (saw_detached j t) clock n s ok = (omega (arith, ok.0), ok.1)
later-IsSafe (loaded j t l) clock n s ok =
    (omega (arith, ok.0), λ h. later-IsDead clock n s (ok.1 h))
later-IsSafe (saw_stale j) clock n s ok = later-IsDead clock n s ok

-- The clock goes on.
pub later-Watched :
    (v : Visit) (left : Bool) (clock n : ℕ) (f : ℕ → Option Session)
    → Watched v left clock f
    → Watched v left (clock + n) f
later-Watched v left clock n f w id s visited there =
    let before = w id s visited there in (before.0, later-IsSafe v clock n s before.1)

pub detached_inactive : (s : Session) → is_detached s.state ≡ true → is_active s.state ≡ false
detached_inactive s d = by_state s.state d
  where
    by_state : (st : State) → is_detached st ≡ true → is_active st ≡ false
    by_state State.detached d = refl
    by_state State.active d = absurd (cc d)
    by_state State.expired d = refl
    by_state State.closed d = refl

-- A session that is neither active nor detached.
abbrev pub IsOver : State → Type 0
IsOver st = (is_active st ≡ false) × (is_detached st ≡ false)

over-IsSafe :
    (v : Visit) (clock : ℕ) (s s' : Session)
    → IsOver s'.state
    → IsSafe v clock s
    → IsSafe v clock s'
over-IsSafe v clock s s' over ok = by_visit v ok
  where
    dead : IsDead clock s'
    dead = (over.0, λ d. absurd (cc (d, over.1)))

    by_visit : (w : Visit) → IsSafe w clock s → IsSafe w clock s'
    by_visit between ok = tt
    by_visit (saw_detached j t) ok = (ok.0, λ e. absurd (cc (e, over.0)))
    by_visit (loaded j t l) ok = (ok.0, λ h. dead)
    by_visit (saw_stale j) ok = dead

pub set_state-IsSafe :
    (v : Visit) (clock : ℕ) (s : Session) (st : State)
    → IsOver st
    → IsSafe v clock s
    → IsSafe v clock (set_state s st)
unfolding set_state
set_state-IsSafe v clock s st over ok = over-IsSafe v clock s (record s { state = st }) over ok

pub detach-IsSafe :
    (v : Visit) (clock : ℕ) (s : Session)
    → is_active s.state ≡ true
    → IsSafe v clock s
    → IsSafe v clock (detach s clock)
unfolding detach
detach-IsSafe between clock s up ok = tt
detach-IsSafe (saw_detached j t) clock s up ok = (ok.0, λ e. absurd (cc e))
detach-IsSafe (loaded j t l) clock s up ok = (ok.0, λ h. absurd (cc (up, (ok.1 h).0)))
detach-IsSafe (saw_stale j) clock s up ok = absurd (cc (up, ok.0))

-- A dead session does not come back.
back-IsSafe :
    (v : Visit) (clock : ℕ) (s : Session)
    → is_detached s.state ≡ true
    → clock ≤ s.last_active_at + default_reconnect_ttl
    → IsSafe v clock s
    → IsSafe v clock (record s { state = State.active; last_active_at = clock })
back-IsSafe between clock s down young ok = tt
back-IsSafe (saw_detached j t) clock s down young ok = (ok.0, λ e. ok.0)
back-IsSafe (loaded j t l) clock s down young ok =
    (ok.0, λ h. absurd (omega (arith, (ok.1 h).1 down, young)))
back-IsSafe (saw_stale j) clock s down young ok = absurd (omega (arith, ok.1 down, young))

pub attach-IsSafe :
    (v : Visit) (clock : ℕ) (s : Session) → IsSafe v clock s → IsSafe v clock (attach s clock).0
unfolding attach
attach-IsSafe v clock s ok =
    by_tests (is_detached s.state) (since_exceeds s.last_active_at default_reconnect_ttl clock) refl
      refl
  where
    by_tests :
        (d x : Bool)
        → is_detached s.state ≡ d
        → since_exceeds s.last_active_at default_reconnect_ttl clock ≡ x
        → let r : Session × Option ReconnectError =
            if not d
            then (s, some (ReconnectError.not_detached s.session_id))
            else if x
            then (
              record s { state = State.expired },
              some (ReconnectError.has_expired s.session_id),
            )
            else (record s { state = State.active; last_active_at = clock }, none) in
          IsSafe v clock r.0
    by_tests false x down old = ok
    by_tests true true down old =
        over-IsSafe v clock s (record s { state = State.expired }) (refl, refl) ok
    by_tests true false down old =
        back-IsSafe v clock s down (ltb→le (s.last_active_at + default_reconnect_ttl) clock old) ok

pub reconnect-Watched :
    (u : Sweep) (id : ℕ)
    → Watched u.visit u.left u.clock (get u.manager)
    → Watched u.visit u.left u.clock (get (handle_reconnect u.manager id u.clock).0)
unfolding handle_reconnect
reconnect-Watched u id w = by_found (get u.manager id) refl
  where
    by_answer :
        (s : Session) (r : Session × Option ReconnectError)
        → get u.manager id ≡ some s
        → (IsSafe u.visit u.clock s → IsSafe u.visit u.clock r.0)
        → Watched u.visit u.left u.clock (get (attached u.manager id r).0)
    by_answer s (s', none) found safe =
        unfold attached in changed-Watched u.visit u.left u.clock id u.manager s s' found safe w
    by_answer s (s', some e) found safe =
        unfold attached in changed-Watched u.visit u.left u.clock id u.manager s s' found safe w

    by_found :
        (o : Option Session)
        → get u.manager id ≡ o
        → Watched u.visit u.left u.clock (
            get
              (elim o as (λ _. Manager × Reconnected) [
                | none ↦ (u.manager, Reconnected.failed (ReconnectError.not_found id))
                | some s ↦ attached u.manager id (attach s u.clock)
              ]).0)
    by_found none found = w
    by_found (some s) found = by_answer s (attach s u.clock) found (attach-IsSafe u.visit u.clock s)

pub kept_ttl : (m : Manager) (id now : ℕ) → (handle_reconnect m id now).0.ttl ≡ m.ttl
unfolding handle_reconnect attached put_back
kept_ttl m id now = by_found (get m id)
  where
    by_answer : (r : Session × Option ReconnectError) → (attached m id r).0.ttl ≡ m.ttl
    by_answer (s, none) = refl
    by_answer (s, some e) = refl

    by_found :
        (o : Option Session)
        → (elim o as (λ _. Manager × Reconnected) [
          | none ↦ (m, Reconnected.failed (ReconnectError.not_found id))
          | some s ↦ attached m id (attach s now)
        ]).0.ttl
          ≡ m.ttl
    by_found none = refl
    by_found (some s) = by_answer (attach s now)
