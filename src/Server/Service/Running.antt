-- ===== src/Server/Service/Running.antt =====
-- The hub of a running server (server.go).
use multi_terminal.Base.{
  ℕ, ◌+◌, ◌%◌, ◌^◌, ◌≡◌, ◌≢◌, refl, sym, ap, ◌∙◌, Option, none, some, All, ◌⊎◌, inl, inr,
  Bool-cases, List, [], ◌∷◌, arith,
}
use multi_terminal.Base.Maps.{lookup, store, Distinct, store-Distinct}
use multi_terminal.Base.Slices.{Bytes}
use multi_terminal.Base.Steps.{Ran, stuck, crashed, at, Holds, run, reached, Any, all-Any}
use multi_terminal.Base.Outcome.{ret, panic}
use multi_terminal.Server.{Conn, new_conn, Hub, run_register, offer_all, hub_broadcast}
use multi_terminal.Server.Messages.{IsOpen, all_with, offer_open, offer_closed, hub_broadcast_open}
use multi_terminal.Server.Pumps.{Pumps, start}
use multi_terminal.Server.Pumps
use multi_terminal.Server.Service.{
  Service, Event, registered, acts, opened, register, after_act, act, step,
}
use multi_terminal.Server.Service.Broadcast.{conns_of, hub_of, seen, walk, broadcast_refines}

conns-store :
    (id : ℕ) (p : Pumps) (xs : List (ℕ × Pumps))
    → conns_of (store id p xs) ≡ store id p.conn (conns_of xs)
unfolding store
conns-store id p [] = refl
conns-store id p ((j, q) ∷ xs) = ground (arith, conns-store id p xs)

-- A registration is one of the hub.
pub register_refines :
    (s : Service) (id : ℕ) → run_register (hub_of s) (new_conn id) ≡ hub_of (register s)
unfolding register run_register new_conn multi_terminal.Server.next_id start
register_refines s id =
    let i = (s.id_gen + 1) % 2 ^ 32 in
    ap (λ l. let h : Hub = record { id_gen = i; conns = l } in h)
      (sym (conns-store i (start i) s.clients))

after-Distinct :
    (s : Service) (id : ℕ) (r : Ran Pumps)
    → Distinct s.clients
    → Holds (λ t. Distinct t.clients) (after_act s id r)
unfolding after_act
after-Distinct s id stuck d = tt
after-Distinct s id crashed d = tt
after-Distinct s id (at p) d = store-Distinct id p s.clients d

act-Distinct :
    (reply : ℕ → Bytes → Bytes) (s : Service) (id : ℕ) (e : Pumps.Event) (o : Option Pumps)
    → Distinct s.clients
    → Holds (λ t. Distinct t.clients) (act reply s id e o)
unfolding act
act-Distinct reply s id e none d = tt
act-Distinct reply s id e (some p) d = after-Distinct s id (Pumps.step (reply id) p e) d

step-Distinct :
    (reply : ℕ → Bytes → Bytes) (s : Service) (e : Event)
    → Distinct s.clients
    → Holds (λ t. Distinct t.clients) (step reply s e)
unfolding step register
step-Distinct reply s registered d = store-Distinct _ _ s.clients d
step-Distinct reply s (acts id e) d = act-Distinct reply s id e (lookup id s.clients) d

-- At every moment of a running server: the sends of a `Broadcast` to the connections, one after another
-- and with nothing else in between, are never stuck, and what the hub sees of them is the broadcast in
-- one step: it panics exactly if they do, and else leaves the same queues.
service_broadcasts :
    (reply : ℕ → Bytes → Bytes) (es : List Event) (s : Service) (m : Bytes)
    → run (step reply) opened es ≡ at s
    → (seen (run (step reply) s (walk m s.clients)) ≡ hub_broadcast (hub_of s) m)
      × (run (step reply) s (walk m s.clients) ≢ stuck)
service_broadcasts reply es s m h = broadcast_refines reply s m (
    reached (step reply) (λ t. Distinct t.clients) Any opened s es
      (λ t e any d. step-Distinct reply t e d) (all-Any es) (unfold opened in tt) h)

IsOpen-or_panic :
    (m : Bytes) (conns : List (ℕ × Conn))
    → All IsOpen conns ⊎ ((¬ (All IsOpen conns)) × (offer_all m conns ≡ panic))
unfolding offer_all
IsOpen-or_panic m [] = inl tt
IsOpen-or_panic m ((id, c) ∷ conns) = elim (Bool-cases c.closed) [
  | inl down ↦ inr ((λ up. cc (down, up.0)), rw (offer_closed m c down) refl)
  | inr up ↦ elim (IsOpen-or_panic m conns) [
    | inl rest ↦ inl (up, rest)
    | inr (some_down, fails) ↦ inr ((λ all. some_down all.1), rw (offer_open m c up, fails) refl)
  ]
]

seen_panic : (r : Ran Service) → seen r ≡ panic → r ≢ stuck → r ≡ crashed
seen_panic stuck e never = absurd (never refl)
seen_panic crashed e never = refl
seen_panic (at t) e never = absurd (cc e)

seen_ret :
    (r : Ran Service) (h : Hub) → seen r ≡ ret h → (t : Service) × (r ≡ at t) × (hub_of t ≡ h)
seen_ret stuck h e = absurd (cc e)
seen_ret crashed h e = absurd (cc e)
seen_ret (at t) h e = (t, refl, same e)
  where
    same : ret (hub_of t) ≡ ret h → hub_of t ≡ h
    same e = cc e

-- At every moment of a running server, of the sends of a `Broadcast` to the registered connections, one after
-- another and with nothing else in between: if no registered connection is closed, none of them fails
-- or waits, every connection with room in its channel has the message at the end of its queue, one
-- without room has lost it, and no connection is added or removed; if some connection is closed, they
-- end in a panic.
pub broadcast_reaches :
    (reply : ℕ → Bytes → Bytes) (es : List Event) (s : Service) (m : Bytes)
    → run (step reply) opened es ≡ at s
    → (All IsOpen (conns_of s.clients)
        × (t : Service) × (run (step reply) s (walk m s.clients) ≡ at t)
        × (hub_of t ≡ record (hub_of s) { conns = all_with m (conns_of s.clients) }))
      ⊎ ((¬ (All IsOpen (conns_of s.clients))) × (run (step reply) s (walk m s.clients) ≡ crashed))
unfolding hub_broadcast
broadcast_reaches reply es s m h =
    let (sees, never) = service_broadcasts reply es s m h in
    elim (IsOpen-or_panic m (conns_of s.clients)) [
      | inl up ↦
          let (t, done, told) = seen_ret _ _ (sees ∙ hub_broadcast_open (hub_of s) m up) in
          inl (up, t, done, told)
      | inr (down, fails) ↦ inr (down, seen_panic _ (sees ∙ rw fails refl) never)
    ]
