-- ===== src/Server/Service/Independence.antt =====
-- The connections of a server go their ways independently (server.go and conn.go).
use multi_terminal.Base.{
  ℕ, ◌+◌, ◌^◌, ◌<◌, ◌≡◌, ◌≢◌, refl, ap, subst, ◌∙◌, false, Option, none, some, List, [], ◌∷◌, All,
  arith,
}
use multi_terminal.Base.Maps.{lookup, store, lookup-store}
use multi_terminal.Base.Slices.{Bytes}
use multi_terminal.Base.Steps.{Ran, stuck, crashed, at, bind, run}
use multi_terminal.Server.Pumps.{Pumps, start}
use multi_terminal.Server.Pumps
use multi_terminal.Server.Pumps.Healthy.{healthy_never_crashes}
use multi_terminal.Server.Service.{
  Service, Event, registered, acts, opened, register, after_act, act, step,
}
use multi_terminal.Server.Service.Alone.{
  registrations, own_events, fails, own-healthy, life, Unused, alone, register-Unused,
  alone-register, alone-store, alone-crashes,
}

module _ (reply : ℕ → Bytes → Bytes) where
  -- What a run of the server tells of its connections.
  abbrev pub Tracks : Service → List Event → Ran Service → Type 0
  Tracks s es stuck = Unit {0}
  Tracks s es crashed = (n : ℕ) × (alone reply n s es ≡ crashed)
  Tracks s es (at t) =
      Unused t
      × (t.id_gen ≡ s.id_gen + registrations es)
      × ((n : ℕ) (p : Pumps) → lookup n t.clients ≡ some p → alone reply n s es ≡ at p)

  -- The same of a state before an event.
  earlier :
      (s t : Service) (e : Event) (es : List Event) (r : Ran Service)
      → ((n : ℕ) → alone reply n s (e ∷ es) ≡ alone reply n t es)
      → t.id_gen + registrations es ≡ s.id_gen + registrations (e ∷ es)
      → Tracks t es r
      → Tracks s (e ∷ es) r
  earlier s t e es stuck same count h = tt
  earlier s t e es crashed same count h = (h.0, same h.0 ∙ h.1)
  earlier s t e es (at u) same count h = (h.0, h.1 ∙ count, λ n p found. same n ∙ h.2 n p found)

  -- An act of a connection that the map has.
  acts-Tracks :
      (s : Service) (id : ℕ) (p : Pumps) (e : Pumps.Event) (es : List Event) (r : Ran Pumps)
      → lookup id s.clients ≡ some p
      → Pumps.step (reply id) p e ≡ r
      → ((q : Pumps)
          → let t : Service = record s { clients = store id q s.clients } in
            Tracks t es (run (step reply) t es))
      → Tracks s (acts id e ∷ es) (bind (after_act s id r) (λ t. run (step reply) t es))
  unfolding after_act
  acts-Tracks s id p e es stuck found moved rest = tt
  acts-Tracks s id p e es crashed found moved rest =
      (id, alone-crashes reply id s p e es found moved)
  acts-Tracks s id p e es (at q) found moved rest =
      let t : Service = record s { clients = store id q s.clients } in
      earlier s t (acts id e) es (run (step reply) t es)
        (λ n. alone-store reply n id s p q e es found moved) refl (rest q)

  store-Unused :
      (s : Service) (id : ℕ) (p q : Pumps)
      → Unused s
      → lookup id s.clients ≡ some p
      → Unused (record s { clients = store id q s.clients })
  store-Unused s id p q v found n above =
      ground (arith, lookup-store id n q s.clients, v n above, v id, found)

  pub run-Tracks :
      (s : Service) (es : List Event)
      → Unused s
      → s.id_gen + registrations es < 2 ^ 32
      → Tracks s es (run (step reply) s es)
  unfolding run step
  run-Tracks s [] v room = (v, omega arith, λ n p found. ap (λ o. at (life n o)) found)
  run-Tracks s (registered ∷ es) v room =
      earlier s (register s) registered es (run (step reply) (register s) es)
        (λ n. alone-register reply n s es v (omega (arith, room)))
        (unfold register in omega (arith, room))
        (run-Tracks (register s) es (register-Unused reply s v (omega (arith, room)))
          (unfold register in omega (arith, room)))
  run-Tracks s (acts id e ∷ es) v room = by_found (lookup id s.clients) refl (λ t. run-Tracks t es)
    where
      by_found :
          (o : Option Pumps)
          → lookup id s.clients ≡ o
          → ((t : Service)
              → Unused t
              → t.id_gen + registrations es < 2 ^ 32
              → Tracks t es (run (step reply) t es))
          → Tracks s (acts id e ∷ es) (bind (act reply s id e o) (λ t. run (step reply) t es))
      by_found none found rest = unfold act in tt
      by_found (some p) found rest =
          unfold act in
          acts-Tracks s id p e es (Pumps.step (reply id) p e) found refl (λ q.
            rest (record s { clients = store id q s.clients }) (store-Unused s id p q v found) room)

  pub opened-Unused : Unused opened
  unfolding opened lookup
  opened-Unused n above = refl

  -- While the 32-bit counter of ids does not wrap, every connection of a running server is in the state
  -- in which it would be with its own events and no other connection, whatever the other connections do
  -- in between.
  pub clients_independent :
      (es : List Event) (s : Service) (n : ℕ) (p : Pumps)
      → registrations es < 2 ^ 32
      → run (step reply) opened es ≡ at s
      → lookup n s.clients ≡ some p
      → run (Pumps.step (reply n)) (start n) (own_events n es) ≡ at p
  unfolding opened lookup
  clients_independent es s n p room h found =
      let tracks : Tracks opened es (at s) =
        subst (Tracks opened es) h (run-Tracks opened es opened-Unused (omega (arith, room))) in
      tracks.2 n p found

  -- While the 32-bit counter of ids does not wrap, as long as no read, write or ping of any connection
  -- fails, the server does not panic, in any interleaving of registrations, messages, replies and
  -- broadcasts.
  pub service_survives :
      (es : List Event)
      → registrations es < 2 ^ 32
      → All (λ e. fails e ≡ false) es
      → run (step reply) opened es ≢ crashed
  unfolding opened lookup
  service_survives es room healthy h =
      let (n, alone_crashes) = culprit in
      healthy_never_crashes (reply n) n (own_events n es) (own-healthy n es healthy) alone_crashes
    where
      culprit : Tracks opened es crashed
      culprit =
          subst (Tracks opened es) h (run-Tracks opened es opened-Unused (omega (arith, room)))
