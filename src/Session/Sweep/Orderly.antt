-- ===== src/Session/Sweep/Orderly.antt =====
-- What every event leaves true of a visit of `cleanup` (manager.go and reconnect.go).
use multi_terminal.Base.{
  ℕ, ◌+◌, ◌≤◌, ◌<◌, ◌≡◌, refl, sym, ap, subst, ◌∙◌, Bool, true, false, ◌&&◌, Option, none, some,
  leb, not, if◌then◌else◌, ltb→lt, leb→le, ◌==◌, ==_iff, arith,
}
use multi_terminal.Base.Steps.{Ran, stuck, at, Holds}
use multi_terminal.Session.{
  is_detached, is_active, since_exceeds, default_reconnect_ttl, State, Session, register, get,
  put_back, detach, set_state, unregister,
}
use multi_terminal.Session.Sweep.{
  Visit, between, saw_detached, loaded, saw_stale, Sweep, Event, visits, loads, reconnects,
  detaches, sets_state, passes, reads_clock, deletes, registers, unregisters, is_visited, on_visit,
  last_active, on_load, on_clock, on_delete, on_session, step,
}
use multi_terminal.Session.Sweep.Visits.{
  IsDead, IsSafe, IsOver, Watched, changed-Watched, other-Watched, gone-Watched, later-Watched,
  detached_inactive, set_state-IsSafe, detach-IsSafe, reconnect-Watched, kept_ttl,
}

abbrev pub running : Option Session → Bool
running none = false
running (some s) = is_active s.state

-- The clock is read no more than `slack` after the state.
abbrev pub in_time : ℕ → ℕ → Visit → Bool
in_time slack clock between = true
in_time slack clock (saw_detached id t) = true
in_time slack clock (loaded id t l) = leb clock (t + slack)
in_time slack clock (saw_stale id) = true

-- What the callers owe: they detach active sessions only, call `SetState` only to end a session, and
-- register none under the id that is being visited; and what the scheduler owes: a visit reads the
-- clock no more than `slack` after the state.
abbrev pub orderly : ℕ → Sweep → Event → Bool
orderly slack u (visits id) = true
orderly slack u (loads other) = true
orderly slack u reads_clock = in_time slack u.clock u.visit
orderly slack u deletes = true
orderly slack u (reconnects id) = true
orderly slack u (detaches id) = running (get u.manager id)
orderly slack u (sets_state id st) = not (is_active st) && not (is_detached st)
orderly slack u (passes n) = true
orderly slack u (registers s) = not (is_visited u.visit s.session_id)
orderly slack u (unregisters id) = true

unfoldable pub orderly_step : ℕ → Sweep → Event → Ran Sweep
orderly_step slack u e = if orderly slack u e then step u e else stuck

pub record IsSwept (slack : ℕ) (u : Sweep) : Type 0 where
  pub patient : default_reconnect_ttl + slack ≤ u.manager.ttl
  pub watched : Watched u.visit u.left u.clock (get u.manager)

-- Nothing is visited between two visits.
pub none_visited : (left : Bool) (clock : ℕ) (f : ℕ → Option Session) → Watched between left clock f
none_visited left clock f id s visited there = absurd (cc visited)

-- A visit goes on, with more that it may rely on.
next-Watched :
    (v v' : Visit) (left : Bool) (clock : ℕ) (f : ℕ → Option Session)
    → ((id : ℕ) → is_visited v' id ≡ is_visited v id)
    → ((id : ℕ) (s : Session)
        → is_visited v id ≡ true
        → f id ≡ some s
        → left ≡ false
        → IsSafe v clock s
        → IsSafe v' clock s)
    → Watched v left clock f
    → Watched v' left clock f
next-Watched v v' left clock f same safe w id s visited there =
    let own : is_visited v id ≡ true = sym (same id) ∙ visited in
    let before = w id s own there in (before.0, safe id s own there before.0 before.1)

module _ (slack : ℕ) where
  -- `GetState`
  visit-IsSwept :
      (u : Sweep) (id : ℕ) (v : Visit) (o : Option Session)
      → get u.manager id ≡ o
      → IsSwept slack u
      → Holds (IsSwept slack) (on_visit u id v o)
  unfolding on_visit
  visit-IsSwept u id (saw_detached j t) o found k = tt
  visit-IsSwept u id (loaded j t l) o found k = tt
  visit-IsSwept u id (saw_stale j) o found k = tt
  visit-IsSwept u id between none found k = tt
  visit-IsSwept u id between (some s) found k = by_state (is_detached s.state) refl
    where
      same : (r : Session) → some s ≡ some r → s ≡ r
      same r e = cc e

      by_state :
          (d : Bool)
          → is_detached s.state ≡ d
          → Holds
              (IsSwept slack)
              (if d then at (record u { visit = saw_detached id u.clock; left = false }) else at u)
      by_state false up = k
      by_state true down = record {
        patient = k.patient;
        watched = λ j r visited there.
            let e : s ≡ r =
              same r (sym found ∙ ap (get u.manager) ((==_iff id j).0 visited) ∙ there) in
            (
              refl,
              (
                omega arith,
                λ a. absurd (cc (a, ap (λ x. is_active x.state) e, detached_inactive s down)),
              ),
            );
      }

  -- The load: a time more than the reconnection's limit before the visit's state is that of a session
  -- that did not come back.
  load-IsSwept :
      (u : Sweep) (other : ℕ) (v : Visit)
      → u.visit ≡ v
      → IsSwept slack u
      → Holds (IsSwept slack) (on_load u other v)
  unfolding on_load last_active
  load-IsSwept u other between e k = tt
  load-IsSwept u other (loaded id t l) e k = tt
  load-IsSwept u other (saw_stale id) e k = tt
  load-IsSwept u other (saw_detached id t) e k = record {
    patient = k.patient;
    watched =
        next-Watched (saw_detached id t) (loaded id t l) u.left u.clock (get u.manager) (λ j. refl)
          safe (subst (λ v. Watched v u.left u.clock (get u.manager)) e k.watched);
  }
    where
      l : ℕ
      l = last_active u other (get u.manager id)

      safe :
          (j : ℕ) (s : Session)
          → (id == j) ≡ true
          → get u.manager j ≡ some s
          → u.left ≡ false
          → (t ≤ u.clock) × (is_active s.state ≡ true → t ≤ s.last_active_at)
          → (t ≤ u.clock) × (l + default_reconnect_ttl < t → IsDead u.clock s)
      safe j s hit there still ok = (
        ok.0,
        λ old. (not_active (is_active s.state) refl old, λ d. omega (arith, old, ok.0, loaded_it)),
      )
        where
          loaded_it : l ≡ s.last_active_at
          loaded_it = rw (ap (get u.manager) ((==_iff id j).0 hit) ∙ there, still) refl

          not_active :
              (b : Bool) → is_active s.state ≡ b → l + default_reconnect_ttl < t → b ≡ false
          not_active false a old = refl
          not_active true a old = absurd (omega (arith, ok.1 a, old, loaded_it))

  clock-IsSwept :
      (u : Sweep) (v : Visit)
      → in_time slack u.clock v ≡ true
      → u.visit ≡ v
      → IsSwept slack u
      → Holds (IsSwept slack) (on_clock u v)
  unfolding on_clock
  clock-IsSwept u between timely e k = tt
  clock-IsSwept u (saw_detached id t) timely e k = tt
  clock-IsSwept u (saw_stale id) timely e k = tt
  clock-IsSwept u (loaded id t l) timely e k = by_time (since_exceeds l u.manager.ttl u.clock) refl
    where
      by_time :
          (x : Bool)
          → since_exceeds l u.manager.ttl u.clock ≡ x
          → Holds (IsSwept slack) (
              if x
              then at (record u { visit = saw_stale id })
              else at (record u { visit = between }))
      by_time false young = record {
        patient = k.patient;
        watched = none_visited u.left u.clock (get u.manager);
      }
      by_time true old =
          let late : l + u.manager.ttl < u.clock = ltb→lt _ _ old in
          let soon : u.clock ≤ t + slack = leb→le _ _ timely in
          record {
            patient = k.patient;
            watched =
                next-Watched (loaded id t l) (saw_stale id) u.left u.clock (get u.manager)
                  (λ j. refl)
                  (λ j s visited there still ok. ok.1 (omega (arith, late, soon, k.patient)))
                  (subst (λ v. Watched v u.left u.clock (get u.manager)) e k.watched);
          }

  delete-IsSwept : (u : Sweep) (v : Visit) → IsSwept slack u → Holds (IsSwept slack) (on_delete u v)
  unfolding on_delete
  delete-IsSwept u between k = tt
  delete-IsSwept u (saw_detached id t) k = tt
  delete-IsSwept u (loaded id t l) k = tt
  delete-IsSwept u (saw_stale id) k = record {
    patient = unfold unregister in k.patient;
    watched = none_visited u.left u.clock _;
  }

  session-IsSwept :
      (u : Sweep) (id : ℕ) (f : Session → Session) (o : Option Session)
      → get u.manager id ≡ o
      → ((s : Session) → o ≡ some s → IsSafe u.visit u.clock s → IsSafe u.visit u.clock (f s))
      → IsSwept slack u
      → Holds (IsSwept slack) (on_session u id f o)
  unfolding on_session
  session-IsSwept u id f none found safe k = tt
  session-IsSwept u id f (some s) found safe k = record {
    patient = unfold put_back in k.patient;
    watched =
        changed-Watched u.visit u.left u.clock id u.manager s (f s) found (safe s refl) k.watched;
  }

  step-IsSwept :
      (u : Sweep) (e : Event)
      → orderly slack u e ≡ true
      → IsSwept slack u
      → Holds (IsSwept slack) (step u e)
  unfolding step
  step-IsSwept u (visits id) ok k = visit-IsSwept u id u.visit (get u.manager id) refl k
  step-IsSwept u (loads other) ok k = load-IsSwept u other u.visit refl k
  step-IsSwept u reads_clock ok k = clock-IsSwept u u.visit ok refl k
  step-IsSwept u deletes ok k = delete-IsSwept u u.visit k
  step-IsSwept u (reconnects id) ok k = record {
    patient =
        subst (λ n. default_reconnect_ttl + slack ≤ n) (sym (kept_ttl u.manager id u.clock))
          k.patient;
    watched = reconnect-Watched u id k.watched;
  }
  step-IsSwept u (detaches id) ok k =
      session-IsSwept u id (λ s. detach s u.clock) (get u.manager id) refl
        (λ s there. detach-IsSafe u.visit u.clock s (sym (ap running there) ∙ ok)) k
  step-IsSwept u (sets_state id st) ok k =
      session-IsSwept u id (λ s. set_state s st) (get u.manager id) refl
        (λ s there. set_state-IsSafe u.visit u.clock s st (over st ok)) k
    where
      over : (st : State) → (not (is_active st) && not (is_detached st)) ≡ true → IsOver st
      over State.active e = absurd (cc e)
      over State.detached e = absurd (cc e)
      over State.expired e = (refl, refl)
      over State.closed e = (refl, refl)
  step-IsSwept u (passes n) ok k = record {
    patient = k.patient;
    watched = later-Watched u.visit u.left u.clock n (get u.manager) k.watched;
  }
  step-IsSwept u (registers s) ok k = record {
    patient = unfold register in k.patient;
    watched =
        other-Watched u.visit u.left u.clock u.manager s
          (unvisited (is_visited u.visit s.session_id) ok) k.watched;
  }
    where
      unvisited : (b : Bool) → not b ≡ true → b ≡ false
      unvisited false e = refl
      unvisited true e = absurd (cc e)
  step-IsSwept u (unregisters id) ok k = record {
    patient = unfold unregister in k.patient;
    watched = gone-Watched u.visit u.left u.clock id u.manager k.watched;
  }

  pub orderly-IsSwept :
      (u : Sweep) (e : Event) → IsSwept slack u → Holds (IsSwept slack) (orderly_step slack u e)
  unfolding orderly_step
  orderly-IsSwept u e k = by_test (orderly slack u e) refl
    where
      by_test :
          (b : Bool) → orderly slack u e ≡ b → Holds (IsSwept slack) (if b then step u e else stuck)
      by_test false broken = tt
      by_test true kept = step-IsSwept u e kept k
