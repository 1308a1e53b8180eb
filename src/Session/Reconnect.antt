-- ===== src/Session/Reconnect.antt =====
-- Detaching and attaching a session (session/reconnect.go).
use multi_terminal.Base.{ℕ, ◌+◌, ◌≤◌, ◌<◌, ◌≡◌, ◌↔◌, true, false, none, some, arith, if◌then◌else◌}
use multi_terminal.Session.{
  active, detached, expired, Session, default_reconnect_ttl, not_detached, has_expired, detach,
  can_reconnect, is_expired, attach,
}

-- A detached session can be reconnected up to and including ten minutes after it was last active, is
-- expired afterwards, and never both; a session in any other state is neither.
pub can_reconnect-is_expired :
    (s : Session) (now : ℕ)
    → ((can_reconnect s now ≡ true)
        ↔ ((s.state ≡ detached) × (now ≤ s.last_active_at + default_reconnect_ttl)))
      × ((is_expired s now ≡ true)
          ↔ ((s.state ≡ detached) × (s.last_active_at + default_reconnect_ttl < now)))
unfolding can_reconnect is_expired
can_reconnect-is_expired s now =
    (((λ h. ground arith), (λ h. ground arith)), ((λ h. ground arith), (λ h. ground arith)))

pub expired-not-reconnectable :
    (s : Session) (now : ℕ) → is_expired s now ≡ true → can_reconnect s now ≡ false
unfolding is_expired can_reconnect
expired-not-reconnectable s now h = ground arith

-- `Attach` succeeds exactly where `CanReconnect` holds, and then makes the session active as of now.
-- Where the session is expired it marks it so; in any other state it changes nothing. An error
-- carries the session's id.
pub attach_lem :
    (s : Session) (now : ℕ)
    → attach s now ≡ (
        if can_reconnect s now
        then (record s { state = active; last_active_at = now }, none)
        else if is_expired s now
        then (record s { state = expired }, some (has_expired s.session_id))
        else (s, some (not_detached s.session_id)))
unfolding attach can_reconnect is_expired
attach_lem s now = ground arith

-- `Detach` has no guard on the state: also a session that is expired or closed can be attached again
-- for ten minutes after a `Detach`.
pub detach_revives :
    (s : Session) (then_ now : ℕ)
    → now ≤ then_ + default_reconnect_ttl
    → attach (detach s then_) now ≡ (record s { state = active; last_active_at = now }, none)
unfolding attach detach
detach_revives s then_ now h = ground arith
