-- ===== src/Session/Lifecycle.antt =====
-- The managers that the calls of manager.go, session.go and reconnect.go can lead to.
use multi_terminal.Base.{
  ℕ, ◌≡◌, ◌≢◌, refl, sym, ap, ◌∙◌, Bool, true, false, Option, none, some, arith, All, ==_refl,
  if◌then◌else◌, Bool-cases, inl, inr,
}
use multi_terminal.Base.Maps.{
  Distinct, store-Distinct, keep-Distinct, delete-Distinct, All-store, All-delete, All-keep,
  lookup-All,
}
use multi_terminal.Session.{
  State, active, detached, has_expired, not_detached, can_reconnect, is_expired, PromptState,
  Session, Manager, default_ttl, new_manager, set_state, set_prompt_state, set_slow, detach,
  cleanup, get, put_back, register, unregister, handle_reconnect, session, failed,
}
use multi_terminal.Session.Reconnect.{can_reconnect-is_expired}
use multi_terminal.Session.Registry.{
  get-put_back, handle_found, handle_missing, attached-attach, after_reconnect, reconnect_answer,
}

-- A method of a session, but `Attach`.
pub data Method : Type 0 where
  sets_state : State → Method
  sets_prompt : PromptState → Method
  sets_slow : Bool → Method
  detaches : ℕ → Method

abbrev pub call : Method → Session → Session
call (sets_state st) s = set_state s st
call (sets_prompt ps) s = set_prompt_state s ps
call (sets_slow slow) s = set_slow s slow
call (detaches now) s = detach s now

-- One call, by any goroutine.
pub data Step : Manager → Manager → Type 0 where
  registers : (m : Manager) (s : Session) → Step m (register m s)
  unregisters : (m : Manager) (id : ℕ) → Step m (unregister m id)
  cleans : (m : Manager) (now : ℕ) → Step m (cleanup m now)
  calls :
      (m : Manager) (id : ℕ) (s : Session) (f : Method)
      → get m id ≡ some s
      → Step m (put_back m id (call f s))
  reconnects : (m : Manager) (id now : ℕ) → Step m (handle_reconnect m id now).0

pub data Reached : Manager → Type 0 where
  fresh : Reached new_manager
  next : {m after : Manager} → Reached m → Step m after → Reached after

-- Every session stands under its own id.
abbrev pub IsFiled : ℕ × Session → Type 0
IsFiled (id, s) = s.session_id ≡ id

pub record IsManager (m : Manager) : Type 0 where
  pub distinct : Distinct m.sessions
  pub filed : All IsFiled m.sessions
  pub ttl_kept : m.ttl ≡ default_ttl

get-IsFiled :
    (m : Manager) (id : ℕ) (s : Session) → IsManager m → get m id ≡ some s → s.session_id ≡ id
unfolding get
get-IsFiled m id s v found = lookup-All IsFiled id s m.sessions v.filed found

put_back-IsManager :
    (m : Manager) (id : ℕ) (s : Session)
    → IsManager m
    → s.session_id ≡ id
    → IsManager (put_back m id s)
unfolding put_back
put_back-IsManager m id s v own = record {
  distinct = store-Distinct id s m.sessions v.distinct;
  filed = All-store IsFiled id s m.sessions own v.filed;
  ttl_kept = v.ttl_kept;
}

id-call : (f : Method) (s : Session) → (call f s).session_id ≡ s.session_id
unfolding set_state set_prompt_state set_slow detach
id-call (sets_state st) s = refl
id-call (sets_prompt ps) s = refl
id-call (sets_slow slow) s = refl
id-call (detaches now) s = refl

id-after_reconnect : (s : Session) (now : ℕ) → (after_reconnect s now).session_id ≡ s.session_id
id-after_reconnect s now = ground arith

reconnect-IsManager :
    (m : Manager) (id now : ℕ) → IsManager m → IsManager (handle_reconnect m id now).0
reconnect-IsManager m id now v = by_entry (get m id) refl
  where
    by_entry : (o : Option Session) → get m id ≡ o → IsManager (handle_reconnect m id now).0
    by_entry none missing = rw (handle_missing m id now missing) v
    by_entry (some s) found =
        rw (handle_found m id now s found, attached-attach m id now s)
          (put_back-IsManager m id (after_reconnect s now) v
            (id-after_reconnect s now ∙ get-IsFiled m id s v found))

Step-IsManager : {m after : Manager} → Step m after → IsManager m → IsManager after
unfolding register unregister cleanup
Step-IsManager (registers m s) v = record {
  distinct = store-Distinct s.session_id s m.sessions v.distinct;
  filed = All-store IsFiled s.session_id s m.sessions refl v.filed;
  ttl_kept = v.ttl_kept;
}
Step-IsManager (unregisters m id) v = record {
  distinct = delete-Distinct id m.sessions v.distinct;
  filed = All-delete IsFiled id m.sessions v.filed;
  ttl_kept = v.ttl_kept;
}
Step-IsManager (cleans m now) v = record {
  distinct = keep-Distinct _ m.sessions v.distinct;
  filed = All-keep IsFiled _ m.sessions v.filed;
  ttl_kept = v.ttl_kept;
}
Step-IsManager (calls m id s f found) v =
    put_back-IsManager m id (call f s) v (id-call f s ∙ get-IsFiled m id s v found)
Step-IsManager (reconnects m id now) v = reconnect-IsManager m id now v

-- In every manager that any calls lead to, in any order, no id occurs twice, every session stands
-- under its own id, and the limit of the cleanup is the ten minutes it began with.
pub Reached-IsManager : {m : Manager} → Reached m → IsManager m
unfolding new_manager
Reached-IsManager fresh = record { distinct = tt; filed = tt; ttl_kept = refl }
Reached-IsManager (next before step) = Step-IsManager step (Reached-IsManager before)

answer_is_found :
    (s t : Session) (now : ℕ)
    → reconnect_answer s now ≡ session t
    → (t ≡ after_reconnect s now) × (s.state ≡ detached) × (t.state ≡ active)
answer_is_found s t now e = elim (Bool-cases (can_reconnect s now)) [
  | inl can ↦
      let same : record s { state = active; last_active_at = now } ≡ t = cc (rw can at e) in
      (
        rw can (sym same),
        ((can_reconnect-is_expired s now).0.0 can).0,
        sym (ap (λ x. x.state) same),
      )
  | inr cannot ↦ absurd (refused (is_expired s now) (rw cannot at e))
]
  where
    refused :
        (old : Bool)
        → (if old then failed (has_expired s.session_id) else failed (not_detached s.session_id))
          ≢ session t
    refused true f = cc f
    refused false f = cc f

-- In every manager that any calls lead to, a session that `HandleReconnect` hands out for an id is the one with that id: it
-- was there and detached, is active now, and the manager has it so.
pub reconnect_own :
    (m : Manager) (id now : ℕ) (t : Session)
    → Reached m
    → (handle_reconnect m id now).1 ≡ session t
    → (t.session_id ≡ id)
      × (t.state ≡ active)
      × (get (handle_reconnect m id now).0 id ≡ some t)
      × (s : Session) × (get m id ≡ some s)
      × (s.state ≡ detached)
reconnect_own m id now t r out = by_entry (get m id) refl
  where
    by_entry :
        (o : Option Session)
        → get m id ≡ o
        → (t.session_id ≡ id)
          × (t.state ≡ active)
          × (get (handle_reconnect m id now).0 id ≡ some t)
          × (s : Session) × (get m id ≡ some s)
          × (s.state ≡ detached)
    by_entry none missing = absurd (cc (out, ap (λ p. p.1) (handle_missing m id now missing)))
    by_entry (some s) found =
        let done = handle_found m id now s found ∙ attached-attach m id now s in
        let (same, was, is) = answer_is_found s t now (sym (ap (λ p. p.1) done) ∙ out) in
        let own = get-IsFiled m id s (Reached-IsManager r) found in
        (
          ap (λ x. x.session_id) same ∙ id-after_reconnect s now ∙ own,
          is,
          rw done
              (get-put_back m id id (after_reconnect s now) ∙ rw (==_refl id) (ap some (sym same))),
          s,
          found,
          was,
        )
