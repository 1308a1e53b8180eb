-- ===== src/Session/Registry.antt =====
-- The registry of sessions (session/manager.go) and the reconnection handler.
use multi_terminal.Base.{
  ℕ, ◌≡◌, ◌≢◌, refl, sym, ap, ◌∙◌, Bool, true, false, not, Option, none, some, List, [], ◌∷◌, arith,
  if◌then◌else◌, ==_refl, ==_iff, ◌==◌,
}
use multi_terminal.Base.Maps.{
  lookup-store, Distinct, store-Distinct, keep-Distinct, lookup-keep-some, lookup-keep-none,
}
use multi_terminal.Session.Reconnect.{attach_lem, expired-not-reconnectable}
use multi_terminal.Session.{
  active, detached, expired, Session, Manager, is_stale, not_found, not_detached, has_expired,
  can_reconnect, is_expired, attach, cleanup, get, put_back, handle_reconnect, Reconnected, session,
  failed, attached,
}

get-cleanup-some :
    (m : Manager) (now id : ℕ) (s : Session)
    → Distinct m.sessions
    → get m id ≡ some s
    → get (cleanup m now) id ≡ (if is_stale m.ttl now (id, s) then none else some s)
unfolding get cleanup
get-cleanup-some m now id s d h =
    lookup-keep-some (λ e. not (is_stale m.ttl now e)) id s m.sessions d h ∙ ground arith

get-cleanup-none : (m : Manager) (now id : ℕ) → get m id ≡ none → get (cleanup m now) id ≡ none
unfolding get cleanup
get-cleanup-none m now id = lookup-keep-none _ id m.sessions

-- What a cleanup leaves of what an id is bound to.
abbrev pub unless_stale : ℕ → ℕ → ℕ → Option Session → Option Session
unless_stale ttl now id none = none
unless_stale ttl now id (some s) = if is_stale ttl now (id, s) then none else some s

-- If no id occurs twice, a cleanup removes the sessions that are detached for longer than the
-- manager's limit, and leaves every other session as it was.
pub get-cleanup :
    (m : Manager) (now id : ℕ)
    → Distinct m.sessions
    → get (cleanup m now) id ≡ unless_stale m.ttl now id (get m id)
get-cleanup m now id d = by_entry (get m id) refl
  where
    by_entry :
        (o : Option Session) → get m id ≡ o → get (cleanup m now) id ≡ unless_stale m.ttl now id o
    by_entry none missing = get-cleanup-none m now id missing
    by_entry (some s) found = get-cleanup-some m now id s d found

pub get-put_back :
    (m : Manager) (id j : ℕ) (s : Session)
    → get (put_back m id s) j ≡ (if id == j then some s else get m j)
unfolding get put_back
get-put_back m id j s = lookup-store id j s m.sessions

cleanup-Distinct : (m : Manager) (now : ℕ) → Distinct m.sessions → Distinct (cleanup m now).sessions
unfolding cleanup
cleanup-Distinct m now d = keep-Distinct _ m.sessions d

-- What `HandleReconnect` does to the session that it finds.
abbrev pub after_reconnect : Session → ℕ → Session
after_reconnect s now =
    if can_reconnect s now
    then record s { state = active; last_active_at = now }
    else if is_expired s now
    then record s { state = expired }
    else s

-- What it answers.
abbrev pub reconnect_answer : Session → ℕ → Reconnected
reconnect_answer s now =
    if can_reconnect s now
    then session (record s { state = active; last_active_at = now })
    else if is_expired s now
    then failed (has_expired s.session_id)
    else failed (not_detached s.session_id)

pub handle_found :
    (m : Manager) (id now : ℕ) (s : Session)
    → get m id ≡ some s
    → handle_reconnect m id now ≡ attached m id (attach s now)
unfolding handle_reconnect
handle_found m id now s found = rw (found, handle_reconnect)

pub handle_missing :
    (m : Manager) (id now : ℕ)
    → get m id ≡ none
    → handle_reconnect m id now ≡ (m, failed (not_found id))
unfolding handle_reconnect
handle_missing m id now missing = rw (missing, handle_reconnect)

pub attached-attach :
    (m : Manager) (id now : ℕ) (s : Session)
    → attached m id (attach s now) ≡ (put_back m id (after_reconnect s now), reconnect_answer s now)
unfolding attached
attached-attach m id now s = rw attach_lem (ground arith)

missing_at :
    (m : Manager) (id j : ℕ) → get m id ≡ none → get m j ≡ (if id == j then none else get m j)
missing_at m id j missing = by_test (id == j) refl
  where
    by_test : (own : Bool) → (id == j) ≡ own → get m j ≡ (if own then none else get m j)
    by_test true hit = sym (ap (get m) ((==_iff id j).0 hit)) ∙ missing
    by_test false miss = refl

-- The answer for what an id is bound to, and what the id is bound to afterwards.
abbrev pub answer_for : ℕ → ℕ → Option Session → Reconnected
answer_for id now none = failed (not_found id)
answer_for id now (some s) = reconnect_answer s now

abbrev pub entry_after : ℕ → Option Session → Option Session
entry_after now none = none
entry_after now (some s) = some (after_reconnect s now)

-- `HandleReconnect` of an id without a session says so. A session that can be reconnected becomes
-- active as of now and is handed out; one whose time is over is marked expired and refused; any other
-- is refused and left as it was. Nothing changes under another id.
pub handle_reconnect_lem :
    (m : Manager) (id now j : ℕ)
    → ((handle_reconnect m id now).1 ≡ answer_for id now (get m id))
      × (get (handle_reconnect m id now).0 j
          ≡ (if id == j then entry_after now (get m id) else get m j))
handle_reconnect_lem m id now j = by_entry (get m id) refl
  where
    by_entry :
        (o : Option Session)
        → get m id ≡ o
        → ((handle_reconnect m id now).1 ≡ answer_for id now o)
          × (get (handle_reconnect m id now).0 j ≡ (if id == j then entry_after now o else get m j))
    by_entry none missing = rw (handle_missing m id now missing) (refl, missing_at m id j missing)
    by_entry (some s) found =
        rw (handle_found m id now s found, attached-attach)
          (refl, get-put_back m id j (after_reconnect s now))

-- Cleaning up any number of times.
pub cleanups : Manager → List ℕ → Manager
cleanups m [] = m
cleanups m (now ∷ later) = cleanups (cleanup m now) later

cleanups_keep :
    (m : Manager) (times : List ℕ) (id : ℕ) (s : Session)
    → Distinct m.sessions
    → s.state ≢ detached
    → get m id ≡ some s
    → get (cleanups m times) id ≡ some s
unfolding cleanups
cleanups_keep m [] id s d h found = found
cleanups_keep m (now ∷ times) id s d h found =
    cleanups_keep (cleanup m now) times id s (cleanup-Distinct m now d) h
      (get-cleanup-some m now id s d found ∙ ground arith)

-- If no id occurs twice, a session that the handler marks as expired is never cleaned up: the manager keeps it through
-- every later cleanup, since `cleanup` deletes detached sessions only.
pub expired_never_cleaned :
    (m : Manager) (id now : ℕ) (s : Session) (times : List ℕ)
    → Distinct m.sessions
    → get m id ≡ some s
    → is_expired s now ≡ true
    → get (cleanups (handle_reconnect m id now).0 times) id ≡ some (record s { state = expired })
expired_never_cleaned m id now s times d found old =
    cleanups_keep _ times id (record s { state = expired }) distinct (λ e. cc) marked
  where
    distinct : Distinct (handle_reconnect m id now).0.sessions
    distinct =
        rw (handle_found m id now s found, attached-attach)
          (unfold put_back in store-Distinct id (after_reconnect s now) m.sessions d)

    outcome : after_reconnect s now ≡ record s { state = expired }
    outcome = rw (expired-not-reconnectable s now old, old)

    marked : get (handle_reconnect m id now).0 id ≡ some (record s { state = expired })
    marked =
        rw (handle_found m id now s found, attached-attach)
          (get-put_back m id id (after_reconnect s now) ∙ rw (==_refl id, outcome))
