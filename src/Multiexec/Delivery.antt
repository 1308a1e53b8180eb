-- ===== src/Multiexec/Delivery.antt =====
-- Who gets the input of a broadcast (multiexec/engine.go).
use multi_terminal.Base.{
  ℕ, ◌+◌, ◌≡◌, ◌≢◌, ◌↔◌, ◌⊎◌, inl, inr, refl, sym, ap, ◌∙◌, Bool, true, false, not, Option, none,
  some, List, [], ◌∷◌, ◌==◌, if◌then◌else◌, arith, length, ==_iff,
}
use multi_terminal.Base.Outcome.{Outcome, ret, panic, ◌>>=◌}
use multi_terminal.Session.{
  Session, Manager, State, active, detached, expired, closed, is_active, get,
}
use multi_terminal.Multiexec.{
  DeliveryError, write_error, no_errors, add_error, add_session, session_not_active, session_slow,
  Turn, skip, refuse, deliver, examine, found, turn, Broadcast, after_turn, broadcast,
  after_turn_sync, broadcast_sync,
}

-- A synchronous broadcast that returns has written, in order, to the sessions for which the asynchronous
-- one starts its goroutines, whichever writes fail: a failed write stops none of the later ones.
pub picked-sync :
    (write_fails : Session → Bool) (m : Manager) (source : ℕ) (targets : List ℕ) (b : Broadcast)
    → broadcast_sync write_fails m source targets ≡ ret b
    → b.picked ≡ (broadcast m source targets).picked
unfolding broadcast broadcast_sync after_turn after_turn_sync
picked-sync write_fails m source [] b e = picked_same no_errors b e
  where
    picked_same : (a b : Broadcast) → ret a ≡ ret b → b.picked ≡ a.picked
    picked_same a b e = let same : a ≡ b = cc e in ap (λ x. x.picked) (sym same)
picked-sync write_fails m source (target ∷ targets) b e =
    same_turn (turn m source target) (broadcast_sync write_fails m source targets)
      (picked-sync write_fails m source targets) e
  where
    rest : Broadcast
    rest = broadcast m source targets

    same_ret : {x y : Broadcast} → ret x ≡ ret y → x ≡ y
    same_ret e = cc e

    behind :
        (o : Outcome Broadcast) (f : Broadcast → Broadcast) (front : List Session → List Session)
        → ((x : Broadcast) → (f x).picked ≡ front x.picked)
        → ((x : Broadcast) → o ≡ ret x → x.picked ≡ rest.picked)
        → (o >>= λ x. ret (f x)) ≡ ret b
        → b.picked ≡ front rest.picked
    behind panic f front shape ih e = absurd (cc e)
    behind (ret x) f front shape ih e =
        ap (λ y. y.picked) (sym (same_ret e)) ∙ shape x ∙ ap front (ih x refl)

    same_turn :
        (t : Turn) (o : Outcome Broadcast)
        → ((x : Broadcast) → o ≡ ret x → x.picked ≡ rest.picked)
        → after_turn_sync write_fails target t o ≡ ret b
        → b.picked ≡ (after_turn t rest).picked
    same_turn skip o ih e = ih b e
    same_turn (refuse r) o ih e = behind o (add_error r) (λ l. l) (λ x. refl) ih e
    same_turn (deliver s) o ih e = by_tests s.has_stream (write_fails s) e
      where
        by_tests :
            (set fails : Bool)
            → (if not set
                then panic
                else if fails
                then (o >>= λ x. ret (add_session s (add_error (write_error target) x)))
                else (o >>= λ x. ret (add_session s x)))
              ≡ ret b
            → b.picked ≡ s ∷ rest.picked
        by_tests false fails e = absurd (cc e)
        by_tests true true e =
            behind o (λ x. add_session s (add_error (write_error target) x)) (λ l. s ∷ l)
              (λ x. refl) ih e
        by_tests true false e = behind o (add_session s) (λ l. s ∷ l) (λ x. refl) ih e

-- Whether the session of an id may be written to.
abbrev pub Open : Manager → ℕ → Session → Type 0
Open m id s = (get m id ≡ some s) × (s.state ≡ active) × (s.is_slow ≡ false)

-- What a turn means.
data View (m : Manager) (source target : ℕ) : Turn → Type 0 where
  own : target ≡ source → View m source target skip
  shut :
      (e : DeliveryError)
      → target ≢ source
      → ((s : Session) → ¬ (Open m target s))
      → View m source target (refuse e)
  free : (s : Session) → target ≢ source → Open m target s → View m source target (deliver s)

is_active_iff : (st : State) → (is_active st ≡ true) ↔ (st ≡ active)
is_active_iff active = ((λ e. refl), (λ e. refl))
is_active_iff detached = ((λ e. cc), (λ e. cc))
is_active_iff expired = ((λ e. cc), (λ e. cc))
is_active_iff closed = ((λ e. cc), (λ e. cc))

-- The session at an open target is active and not slow.
Open-same :
    (m : Manager) (target : ℕ) {s o : Session}
    → get m target ≡ some s
    → Open m target o
    → (is_active s.state ≡ true) × (s.is_slow ≡ false)
Open-same m target {s} {o} at_id h =
    let same : s ≡ o = cc (at_id, h.0) in
    ((is_active_iff s.state).1 (ap (λ i. i.state) same ∙ h.1), ap (λ i. i.is_slow) same ∙ h.2)

examine-View :
    (m : Manager) (source target : ℕ) (s : Session)
    → target ≢ source
    → get m target ≡ some s
    → View m source target (examine target s)
unfolding examine
examine-View m source target s ne at_id = by_tests (is_active s.state) s.is_slow refl refl
  where
    by_tests :
        (up slow : Bool)
        → is_active s.state ≡ up
        → s.is_slow ≡ slow
        → View m source target (
            if not up
            then refuse (session_not_active target)
            else if slow
            then refuse (session_slow target)
            else deliver s)
    by_tests false slow down _ = shut _ ne (λ o h. cc (down, (Open-same m target at_id h).0))
    by_tests true true up h = shut _ ne (λ o p. cc (h, (Open-same m target at_id p).1))
    by_tests true false up h = free s ne (at_id, (is_active_iff s.state).0 up, h)

found-View :
    (m : Manager) (source target : ℕ) (o : Option Session)
    → target ≢ source
    → get m target ≡ o
    → View m source target (found target o)
unfolding found
found-View m source target none ne missing = shut _ ne (λ s h. cc (missing, h.0))
found-View m source target (some s) ne at_id = examine-View m source target s ne at_id

turn-View : (m : Manager) (source target : ℕ) → View m source target (turn m source target)
unfolding turn
turn-View m source target = by_test (target == source) refl
  where
    by_test :
        (own_id : Bool)
        → (target == source) ≡ own_id
        → View m source target (if own_id then skip else found target (get m target))
    by_test true hit = own ((==_iff target source).0 hit)
    by_test false miss =
        found-View m source target (get m target) (λ e. cc (miss, (==_iff target source).1 e)) refl

-- How many targets are not the source.
abbrev pub others : ℕ → List ℕ → ℕ
others source [] = 0
others source (target ∷ targets) =
    let rest = others source targets in if target == source then rest else 1 + rest

-- Every target other than the source is accounted for once: the asynchronous broadcast either starts
-- a goroutine for it or returns an error for it.
pub errors-or-picked :
    (m : Manager) (source : ℕ) (targets : List ℕ)
    → length (broadcast m source targets).errors + length (broadcast m source targets).picked
      ≡ others source targets
unfolding broadcast after_turn
errors-or-picked m source [] = refl
errors-or-picked m source (target ∷ targets) =
    by_view _ (turn-View m source target) (errors-or-picked m source targets)
  where
    by_view :
        {t : Turn} (b : Broadcast)
        → View m source target t
        → length b.errors + length b.picked ≡ others source targets
        → length (after_turn t b).errors + length (after_turn t b).picked
          ≡ others source (target ∷ targets)
    by_view b (own e) h = ground (arith, h, e)
    by_view b (shut e ne miss) h = ground (arith, h, ne)
    by_view b (free s ne o) h = ground (arith, h, ne)

-- The targets that a broadcast starts a goroutine for, with their sessions.
pub data Picked (m : Manager) (source : ℕ) : List ℕ → List Session → Type 0 where
  none_left : Picked m source [] []
  passed_over :
      {targets : List ℕ} {ss : List Session} (target : ℕ)
      → (target ≡ source) ⊎ ((s : Session) → ¬ (Open m target s))
      → Picked m source targets ss
      → Picked m source (target ∷ targets) ss
  chosen :
      {targets : List ℕ} {ss : List Session} (target : ℕ) (s : Session)
      → target ≢ source
      → Open m target s
      → Picked m source targets ss
      → Picked m source (target ∷ targets) (s ∷ ss)

-- A broadcast starts one goroutine, in the order of the targets, for each target that is not the source
-- and is registered, active and not slow, and for no other; which of them writes first is not said.
pub broadcast-Picked :
    (m : Manager) (source : ℕ) (targets : List ℕ)
    → Picked m source targets (broadcast m source targets).picked
unfolding broadcast after_turn
broadcast-Picked m source [] = none_left
broadcast-Picked m source (target ∷ targets) =
    by_view _ (turn-View m source target) (broadcast-Picked m source targets)
  where
    by_view :
        {t : Turn} (b : Broadcast)
        → View m source target t
        → Picked m source targets b.picked
        → Picked m source (target ∷ targets) (after_turn t b).picked
    by_view b (own e) w = passed_over target (inl e) w
    by_view b (shut e ne miss) w = passed_over target (inr miss) w
    by_view b (free s ne o) w = chosen target s ne o w
