-- ===== src/Server/Messages.antt =====
-- What the hub promises, and where it panics (server.go, conn.go).
use multi_terminal.Base.{
  ℕ, ◌≡◌, refl, ap, ◌∙◌, Bool, true, false, Option, none, some, List, [], ◌∷◌, ◌++◌, ltb,
  if◌then◌else◌, length, All, arith, ◌==◌, ==_refl, Bool-cases, inl, inr,
}
use multi_terminal.Base.Maps.{lookup, store, lookup-store}
use multi_terminal.Base.Slices.{Bytes}
use multi_terminal.Base.Outcome.{ret, panic, ◌>>=◌}
use multi_terminal.Server.{
  Conn, send_capacity, close_send, offer, Hub, offer_all, hub_broadcast, pump_ends,
}

-- What an open connection's queue holds after a message was offered.
abbrev pub with_message : Bytes → Conn → Conn
with_message message c =
    if ltb (length c.queue) send_capacity then record c { queue = c.queue ++ message ∷ [] } else c

abbrev pub delivered : Bytes → Option Conn → Option Conn
delivered message none = none
delivered message (some c) = some (with_message message c)

abbrev pub all_with : Bytes → List (ℕ × Conn) → List (ℕ × Conn)
all_with message [] = []
all_with message ((id, c) ∷ conns) = (id, with_message message c) ∷ all_with message conns

abbrev pub IsOpen : ℕ × Conn → Type 0
IsOpen (id, c) = c.closed ≡ false

pub offer_open :
    (message : Bytes) (c : Conn) → c.closed ≡ false → offer message c ≡ ret (with_message message c)
unfolding offer
offer_open message c up = ground arith

pub offer_closed : (message : Bytes) (c : Conn) → c.closed ≡ true → offer message c ≡ panic
unfolding offer
offer_closed message c down = ground arith

offer_all_open :
    (message : Bytes) (conns : List (ℕ × Conn))
    → All IsOpen conns
    → offer_all message conns ≡ ret (all_with message conns)
unfolding offer_all
offer_all_open message [] up = refl
offer_all_open message ((id, c) ∷ conns) up =
    rw (offer_open message c up.0, offer_all_open message conns up.1) refl

pub hub_broadcast_open :
    (h : Hub) (message : Bytes)
    → All IsOpen h.conns
    → hub_broadcast h message ≡ ret (record h { conns = all_with message h.conns })
unfolding hub_broadcast
hub_broadcast_open h message up = rw (offer_all_open message h.conns up) refl

pub all_with-IsOpen :
    (message : Bytes) (conns : List (ℕ × Conn))
    → All IsOpen conns
    → All IsOpen (all_with message conns)
all_with-IsOpen message [] up = tt
all_with-IsOpen message ((id, c) ∷ conns) up =
    (ground (arith, up.0), all_with-IsOpen message conns up.1)

pub lookup-all_with :
    (message : Bytes) (j : ℕ) (conns : List (ℕ × Conn))
    → lookup j (all_with message conns) ≡ delivered message (lookup j conns)
unfolding lookup
lookup-all_with message j [] = refl
lookup-all_with message j ((id, c) ∷ conns) = ground (arith, lookup-all_with message j conns)

-- While no registered connection is closed, a broadcast returns, and puts the message at the end of
-- the queue of every connection that has room; a connection with 256 messages loses it, and nothing
-- else changes.
pub broadcast_delivers :
    (h : Hub) (message : Bytes) (j : ℕ)
    → All IsOpen h.conns
    → (after : Hub) × (hub_broadcast h message ≡ ret after)
      × (lookup j after.conns ≡ delivered message (lookup j h.conns))
broadcast_delivers h message j up = (
  record h { conns = all_with message h.conns },
  hub_broadcast_open h message up,
  lookup-all_with message j h.conns,
)

found_later :
    (id k : ℕ) (c d : Conn) (conns : List (ℕ × Conn))
    → lookup id ((k, d) ∷ conns) ≡ some c
    → c.closed ≡ true
    → d.closed ≡ false
    → lookup id conns ≡ some c
unfolding lookup
found_later id k c d conns found down up = by_test (k == id) found
  where
    by_test :
        (here : Bool)
        → (if here then some d else lookup id conns) ≡ some c
        → lookup id conns ≡ some c
    by_test false e = e
    by_test true e = let same : d ≡ c = cc e in absurd (cc (up, down, ap (λ x. x.closed) same))

offer_all_step :
    (message : Bytes) (id k : ℕ) (c d : Conn) (conns : List (ℕ × Conn))
    → lookup id ((k, d) ∷ conns) ≡ some c
    → c.closed ≡ true
    → (lookup id conns ≡ some c → offer_all message conns ≡ panic)
    → offer_all message ((k, d) ∷ conns) ≡ panic
unfolding offer_all
offer_all_step message id k c d conns found down rest = elim (Bool-cases d.closed) [
  | inl shut ↦ rw (offer_closed message d shut) refl
  | inr up ↦ rw (offer_open message d up, rest (found_later id k c d conns found down up)) refl
]

offer_all_closed :
    (message : Bytes) (id : ℕ) (c : Conn) (conns : List (ℕ × Conn))
    → lookup id conns ≡ some c
    → c.closed ≡ true
    → offer_all message conns ≡ panic
unfolding lookup
offer_all_closed message id c [] found down = absurd (cc found)
offer_all_closed message id c ((k, d) ∷ conns) found down =
    offer_all_step message id k c d conns found down
      (λ later. offer_all_closed message id c conns later down)

-- Nothing tells the hub that a pump has ended, so the connection stays registered with its channel
-- closed: the next broadcast panics.
pub disconnect_breaks_broadcast :
    (h : Hub) (message : Bytes) (id : ℕ) (c : Conn)
    → lookup id h.conns ≡ some c
    → (pump_ends h id c >>= λ after. hub_broadcast after message) ≡ panic
unfolding pump_ends hub_broadcast close_send
disconnect_breaks_broadcast h message id c found = elim (Bool-cases c.closed) [
  | inl shut ↦ rw shut refl
  | inr up ↦ rw up (rw (closed_entry up) refl)
]
  where
    closed_entry :
        c.closed ≡ false → offer_all message (store id (record c { closed = true }) h.conns) ≡ panic
    closed_entry up =
        offer_all_closed message id (record c { closed = true })
          (store id (record c { closed = true }) h.conns)
          (lookup-store id id (record c { closed = true }) h.conns ∙ rw (==_refl id) refl) refl

-- When one pump of a connection has ended, the end of the other one panics.
pub second_pump_panics :
    (h : Hub) (id : ℕ) (c : Conn) → (close_send c >>= λ closed. pump_ends h id closed) ≡ panic
unfolding pump_ends close_send
second_pump_panics h id c = ground arith
