-- ===== src/Graceful/Socket/Shares.antt =====
-- Who gets the connections of new processes (server/graceful.go).
use multi_terminal.Base.{
  ℕ, ◌+◌, ◌-◌, ◌≤◌, ◌≡◌, refl, sym, ap, subst, ◌∙◌, Bool, true, false, Option, none, some, List, [],
  ◌∷◌, ◌++◌, ltb, ltb→lt, if◌then◌else◌, length, map, All, All-append, arith,
}
use multi_terminal.Base.Slices.{Bytes}
use multi_terminal.Graceful.{GracefulState, Listener, GracefulManager}
use multi_terminal.Graceful.Socket.{
  Acceptor, accepting, accepted, failed, deadline_exceeded, waiting, returned, Call, Handoff, Event,
  connected, sender_accepts, sender_fails, wait_called, waiter_accepts, waiter_fails, wait_returns,
  times_out, listening, state_json, accept, fail_accept, receive, expire, new_call, change,
  with_calls, connect, send, give_up, step, after, run,
}
use multi_terminal.Graceful.Socket.Calls.{
  taken, successes, all_taken, IsEarned, call, AllKept, accept-Keeps, fail_accept-Keeps,
  receive-Keeps, expire-Keeps, change_kept,
}

-- The connections among the events.
abbrev pub connections : List Event → ℕ
connections [] = 0
connections (connected ∷ es) = 1 + connections es
connections (sender_accepts ∷ es) = connections es
connections (sender_fails ∷ es) = connections es
connections (wait_called ∷ es) = connections es
connections (waiter_accepts n ∷ es) = connections es
connections (waiter_fails n ∷ es) = connections es
connections (wait_returns n ∷ es) = connections es
connections (times_out n ∷ es) = connections es

abbrev gain : Event → ℕ
gain e = connections (e ∷ [])

abbrev used : Handoff → ℕ
used h = h.backlog + taken h.sender + all_taken h.calls

record IsShared (h : Handoff) : Type 0 where
  found : (l : Listener) × (h.manager.listener ≡ some l)
  sent_once : length h.sent ≤ taken h.sender
  earned : All IsEarned h.calls

-- What an event does to the connections: those that came are waiting or used.
abbrev Balanced : Handoff → ℕ → Option Handoff → Type 0
Balanced h k none = Unit {0}
Balanced h k (some v) = IsShared v × (used v ≡ used h + k)

calls-Balanced :
    (h : Handoff) (k b : ℕ) (o : Option (List Call))
    → IsShared h
    → b + k ≡ h.backlog
    → AllKept k h.calls o
    → Balanced h 0 (with_calls h b o)
calls-Balanced h k b none v e kept = tt
calls-Balanced h k b (some cs) v e kept =
    (record { found = v.found; sent_once = v.sent_once; earned = kept.0 }, omega (arith, e, kept.1))

connect-Balanced : (h : Handoff) (o : Option Listener) → IsShared h → Balanced h 1 (connect h o)
unfolding connect
connect-Balanced h none v = tt
connect-Balanced h (some l) v = by_test l.listening
  where
    by_test :
        (b : Bool) → Balanced h 1 (if b then some (record h { backlog = h.backlog + 1 }) else none)
    by_test false = tt
    by_test true =
        (record { found = v.found; sent_once = v.sent_once; earned = v.earned }, omega arith)

all_taken-append : (cs ds : List Call) → all_taken (cs ++ ds) ≡ all_taken cs + all_taken ds
all_taken-append [] ds = omega arith
all_taken-append (c ∷ cs) ds = omega (arith, all_taken-append cs ds)

called-Balanced :
    (h : Handoff) (l : Listener)
    → IsShared h
    → Balanced h 0 (some (record h { calls = h.calls ++ new_call (some l) ∷ [] }))
unfolding new_call
called-Balanced h l v =
    let c : Call = call accepting none waiting in
    (
      record {
        found = v.found;
        sent_once = v.sent_once;
        earned = All-append IsEarned h.calls (c ∷ []) v.earned (omega arith, tt);
      },
      omega (arith, all_taken-append h.calls (c ∷ [])),
    )

module _ (marshal : Option GracefulState → Option Bytes) where
  send-Balanced :
      (h : Handoff) (a : Acceptor) → h.sender ≡ a → IsShared h → Balanced h 0 (send marshal h a)
  unfolding send
  send-Balanced h accepted e v = tt
  send-Balanced h failed e v = tt
  send-Balanced h accepting e v = by_test (ltb 0 h.backlog) refl
    where
      text : Bytes
      text = state_json marshal h.manager

      unused : taken h.sender ≡ 0
      unused = ap taken e

      by_test :
          (b : Bool)
          → ltb 0 h.backlog ≡ b
          → Balanced h 0 (
              if b
              then some
                  (record h { backlog = h.backlog - 1; sender = accepted; sent = text ∷ h.sent })
              else none)
      by_test false t = tt
      by_test true t = (
        record {
          found = v.found;
          sent_once = omega (arith, v.sent_once, unused);
          earned = v.earned;
        },
        omega (arith, ltb→lt 0 h.backlog t, unused),
      )

  give_up-Balanced :
      (h : Handoff) (a : Acceptor) → h.sender ≡ a → IsShared h → Balanced h 0 (give_up marshal h a)
  unfolding give_up
  give_up-Balanced h accepted e v = tt
  give_up-Balanced h failed e v = tt
  give_up-Balanced h accepting e v = (
    record {
      found = v.found;
      sent_once = omega (arith, v.sent_once, ap taken e);
      earned = v.earned;
    },
    omega (arith, ap taken e),
  )

  accepted-Balanced :
      (h : Handoff) (n : ℕ)
      → IsShared h
      → Balanced h 0
          (if ltb 0 h.backlog then with_calls h (h.backlog - 1) (change accept n h.calls) else none)
  accepted-Balanced h n v = by_test (ltb 0 h.backlog) refl
    where
      by_test :
          (b : Bool)
          → ltb 0 h.backlog ≡ b
          → Balanced h 0
              (if b then with_calls h (h.backlog - 1) (change accept n h.calls) else none)
      by_test false t = tt
      by_test true t =
          calls-Balanced h 1 (h.backlog - 1) (change accept n h.calls) v
            (omega (arith, ltb→lt 0 h.backlog t))
            (change_kept 1 accept n h.calls accept-Keeps v.earned)

  step-Balanced : (h : Handoff) (e : Event) → IsShared h → Balanced h (gain e) (step marshal h e)
  unfolding step
  step-Balanced h connected v = connect-Balanced h h.manager.listener v
  step-Balanced h sender_accepts v = send-Balanced h h.sender refl v
  step-Balanced h sender_fails v = give_up-Balanced h h.sender refl v
  step-Balanced h wait_called v =
      subst (λ o. Balanced h 0 (some (record h { calls = h.calls ++ new_call o ∷ [] })))
        (sym v.found.1) (called-Balanced h v.found.0 v)
  step-Balanced h (waiter_accepts n) v = accepted-Balanced h n v
  step-Balanced h (waiter_fails n) v =
      calls-Balanced h 0 h.backlog (change fail_accept n h.calls) v (omega arith)
        (change_kept 0 fail_accept n h.calls fail_accept-Keeps v.earned)
  step-Balanced h (wait_returns n) v =
      calls-Balanced h 0 h.backlog (change receive n h.calls) v (omega arith)
        (change_kept 0 receive n h.calls receive-Keeps v.earned)
  step-Balanced h (times_out n) v =
      calls-Balanced h 0 h.backlog (change expire n h.calls) v (omega arith)
        (change_kept 0 expire n h.calls expire-Keeps v.earned)

  connections-cons : (e : Event) (es : List Event) → connections (e ∷ es) ≡ gain e + connections es
  connections-cons connected es = omega arith
  connections-cons sender_accepts es = omega arith
  connections-cons sender_fails es = omega arith
  connections-cons wait_called es = omega arith
  connections-cons (waiter_accepts n) es = omega arith
  connections-cons (waiter_fails n) es = omega arith
  connections-cons (wait_returns n) es = omega arith
  connections-cons (times_out n) es = omega arith

  run-Balanced :
      (h : Handoff) (es : List Event) → IsShared h → Balanced h (connections es) (run marshal h es)
  unfolding run
  run-Balanced h [] v = (v, omega arith)
  run-Balanced h (e ∷ es) v =
      by_step (step marshal h e) (step-Balanced h e v) (λ k. run-Balanced k es)
    where
      later :
          (k : Handoff) (o : Option Handoff)
          → used k ≡ used h + gain e
          → Balanced k (connections es) o
          → Balanced h (connections (e ∷ es)) o
      later k none moved h' = tt
      later k (some u) moved h' = (h'.0, omega (arith, h'.1, moved, connections-cons e es))

      by_step :
          (o : Option Handoff)
          → Balanced h (gain e) o
          → ((k : Handoff) → IsShared k → Balanced k (connections es) (run marshal k es))
          → Balanced h (connections (e ∷ es)) (after marshal o (λ k. run marshal k es))
      by_step none b rest = tt
      by_step (some k) b rest = later k (run marshal k es) b.1 (rest k b.0)

  successes_bounded : (cs : List Call) → All IsEarned cs → successes cs ≤ all_taken cs
  successes_bounded [] h = omega arith
  successes_bounded (c ∷ cs) h = omega (arith, successes_bounded cs h.1, h.0)

  -- Once the socket listens, every connection of a new process serves one party: the goroutine that
  -- sends the state, or one call of `WaitForHandoff`. So the times the state was sent and the calls
  -- that returned nil are together no more than the connections that were made, in every order of
  -- events: with one connection the old process sends its state or learns of the new one, not both.
  pub connections_shared :
      (gm : GracefulManager) (l : Listener) (es : List Event) (h : Handoff)
      → gm.listener ≡ some l
      → run marshal (listening gm) es ≡ some h
      → length h.sent + successes h.calls ≤ connections es
  unfolding listening
  connections_shared gm l es h e r =
      let fresh : IsShared (listening gm) = record {
        found = (l, e);
        sent_once = omega arith;
        earned = tt;
      } in
      let b : Balanced (listening gm) (connections es) (some h) =
        subst (Balanced (listening gm) (connections es)) r (run-Balanced (listening gm) es fresh) in
      omega (arith, b.1, b.0.sent_once, successes_bounded h.calls b.0.earned)

  -- What comes of a call that times out before a new process connects.
  abbrev Stolen : GracefulManager → Type 0
  Stolen gm =
      (h : Handoff) × (run marshal (listening gm)
          (wait_called ∷ times_out 0 ∷ connected ∷ waiter_accepts 0 ∷ [])
        ≡ some h)
      × (h.backlog ≡ 0)
      × (h.sent ≡ [])
      × (map (λ c. c.wait) h.calls ≡ returned (some deadline_exceeded) ∷ [])

  up-Stolen :
      (gm : GracefulManager) → Stolen (record gm { listener = some (record { listening = true }) })
  unfolding run step listening connect change expire accept new_call
  up-Stolen gm = (_, refl, refl, refl, refl)

  -- A call that has timed out still takes the next connection: the state is not sent on it.
  pub timed_out_takes :
      (gm : GracefulManager) (l : Listener)
      → gm.listener ≡ some l
      → l.listening ≡ true
      → (h : Handoff) × (run marshal
            (listening gm)
            (wait_called ∷ times_out 0 ∷ connected ∷ waiter_accepts 0 ∷ [])
          ≡ some h)
        × (h.backlog ≡ 0)
        × (h.sent ≡ [])
        × (map (λ c. c.wait) h.calls ≡ returned (some deadline_exceeded) ∷ [])
  timed_out_takes gm l e up =
      subst Stolen
        (ap (λ b. record gm { listener = some (record { listening = b }) }) (sym up)
          ∙ ap (λ o. record gm { listener = o }) (sym e))
        (up-Stolen gm)
