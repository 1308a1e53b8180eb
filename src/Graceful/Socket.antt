-- ===== src/Graceful/Socket.antt =====
-- gateway/internal/server/graceful.go: the handoff socket once it listens, `WaitForHandoff` and the
-- goroutine that `startHandoffListener` leaves behind.
-- An event is what a new process, one goroutine or one call does at a moment. `backlog` is the number of
-- connections that no `Accept` has taken. A call of `WaitForHandoff` is named by its number. An
-- `Accept` may fail at any time, and a `select` whose cases are both ready may take either.
pub mod Calls
pub mod Shares
mod Tests
use multi_terminal.Base.{
  ℕ, zero, suc, ◌+◌, ◌-◌, Bool, true, false, Option, none, some, List, [], ◌∷◌, ◌++◌, ltb,
  if◌then◌else◌,
}
use multi_terminal.Base.Slices.{Bytes}
use multi_terminal.Graceful.{GracefulState, Listener, GracefulManager}

-- A goroutine that accepts one connection.
pub data Acceptor : Type 0 where
  accepting accepted failed : Acceptor

pub data WaitError : Type 0 where
  accept_failed deadline_exceeded : WaitError

-- What a call returns; `none` is a nil error.
pub data Wait : Type 0 where
  waiting : Wait
  returned : Option WaitError → Wait

-- A call of `WaitForHandoff`, its goroutine and its channel.
pub record Call : Type 0 where
  pub goroutine : Acceptor
  pub done : Option (Option WaitError)
  pub wait : Wait

pub record Handoff : Type 0 where
  pub manager : GracefulManager
  pub backlog : ℕ
  pub sender : Acceptor
  pub sent : List Bytes
  pub calls : List Call

pub data Event : Type 0 where
  connected sender_accepts sender_fails wait_called : Event
  waiter_accepts waiter_fails wait_returns times_out : ℕ → Event

-- After `startHandoffListener`.
unfoldable pub listening : GracefulManager → Handoff
listening gm = record { manager = gm; backlog = 0; sender = accepting; sent = []; calls = [] }

-- `stateJSON, _ := json.Marshal(gm.state)`: an error leaves no bytes.
unfoldable pub state_json : (Option GracefulState → Option Bytes) → GracefulManager → Bytes
state_json marshal gm = elim (marshal gm.state) [ none ↦ [] | some json ↦ json ]

-- The channel has room for the one answer.
unfoldable pub accept : Call → Option Call
accept c = elim c.goroutine [
  | accepting ↦ some (record c { goroutine = accepted; done = some none })
  | accepted ↦ none
  | failed ↦ none
]

unfoldable pub fail_accept : Call → Option Call
fail_accept c = elim c.goroutine [
  | accepting ↦ some (record c { goroutine = failed; done = some (some accept_failed) })
  | accepted ↦ none
  | failed ↦ none
]

-- The case `err := <-done`, and the case `<-ctx.Done()`.
unfoldable pub receive : Call → Option Call
receive c = elim c.wait [
  | waiting ↦ elim c.done [
    | none ↦ none
    | some err ↦ some (record c { done = none; wait = returned err })
  ]
  | returned r ↦ none
]

unfoldable pub expire : Call → Option Call
expire c = elim c.wait [
  | waiting ↦ some (record c { wait = returned (some deadline_exceeded) })
  | returned r ↦ none
]

-- What a call does that finds the manager's listener.
unfoldable pub new_call : Option Listener → Call
new_call none = record { goroutine = failed; done = none; wait = returned none }
new_call (some l) = record { goroutine = accepting; done = none; wait = waiting }

-- The call under a number, changed.
abbrev pub changed : Option Call → List Call → Option (List Call)
changed none cs = none
changed (some c) cs = some (c ∷ cs)

abbrev pub behind : Call → Option (List Call) → Option (List Call)
behind c none = none
behind c (some cs) = some (c ∷ cs)

unfoldable pub change : (Call → Option Call) → ℕ → List Call → Option (List Call)
change f n [] = none
change f zero (c ∷ cs) = changed (f c) cs
change f (suc n) (c ∷ cs) = behind c (change f n cs)

abbrev pub with_calls : Handoff → ℕ → Option (List Call) → Option Handoff
with_calls h backlog none = none
with_calls h backlog (some cs) = some (record h { backlog = backlog; calls = cs })

-- A connection waits only at a listener that listens.
unfoldable pub connect : Handoff → Option Listener → Option Handoff
connect h none = none
connect h (some l) = if l.listening then some (record h { backlog = h.backlog + 1 }) else none

module _ (marshal : Option GracefulState → Option Bytes) where
  -- The goroutine that sends the state.
  unfoldable pub send : Handoff → Acceptor → Option Handoff
  send h accepting =
      if ltb 0 h.backlog
      then some (record h {
        backlog = h.backlog - 1;
        sender = accepted;
        sent = state_json marshal h.manager ∷ h.sent;
      })
      else none
  send h accepted = none
  send h failed = none

  unfoldable pub give_up : Handoff → Acceptor → Option Handoff
  give_up h accepting = some (record h { sender = failed })
  give_up h accepted = none
  give_up h failed = none

  unfoldable pub step : Handoff → Event → Option Handoff
  step h connected = connect h h.manager.listener
  step h sender_accepts = send h h.sender
  step h sender_fails = give_up h h.sender
  step h wait_called = some (record h { calls = h.calls ++ new_call h.manager.listener ∷ [] })
  step h (waiter_accepts n) =
      if ltb 0 h.backlog then with_calls h (h.backlog - 1) (change accept n h.calls) else none
  step h (waiter_fails n) = with_calls h h.backlog (change fail_accept n h.calls)
  step h (wait_returns n) = with_calls h h.backlog (change receive n h.calls)
  step h (times_out n) = with_calls h h.backlog (change expire n h.calls)

  abbrev pub after : Option Handoff → (Handoff → Option Handoff) → Option Handoff
  after none f = none
  after (some h) f = f h

  unfoldable pub run : Handoff → List Event → Option Handoff
  run h [] = some h
  run h (e ∷ es) = after (step h e) (λ k. run k es)
