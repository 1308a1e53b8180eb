-- ===== src/Server/Service/Broadcast.antt =====
-- `Broadcast` as one step of the hub, and as a send after another among the connections (server.go).
use multi_terminal.Base.{
  ℕ, ◌≡◌, ◌≢◌, refl, sym, ap, subst, ◌∙◌, Bool, true, false, some, List, [], ◌∷◌, ◌++◌,
  append_assoc, ltb, if◌then◌else◌, ==_refl, length, arith,
}
use multi_terminal.Base.Maps.{lookup, store, Fresh, Distinct, store-Distinct}
use multi_terminal.Base.Slices.{Bytes}
use multi_terminal.Base.Outcome.{Outcome, ret, panic, ◌>>=◌}
use multi_terminal.Base.Steps.{Ran, stuck, crashed, at, bind, run}
use multi_terminal.Server.{Conn, send_capacity, offer, Hub, offer_all, hub_broadcast}
use multi_terminal.Server.Pumps.{Pumps, start, enqueue, on_broadcast}
use multi_terminal.Server.Pumps
use multi_terminal.Server.Service.{Service, Event, acts, after_act, act, step}

abbrev pub conns_of : List (ℕ × Pumps) → List (ℕ × Conn)
conns_of [] = []
conns_of ((id, p) ∷ clients) = (id, p.conn) ∷ conns_of clients

-- What the hub sees of the connections.
abbrev pub hub_of : Service → Hub
hub_of s = record { id_gen = s.id_gen; conns = conns_of s.clients }

abbrev pub seen : Ran Service → Outcome Hub
seen stuck = panic
seen crashed = panic
seen (at s) = ret (hub_of s)

-- The walk of `Broadcast`, with nothing in between.
abbrev pub walk : Bytes → List (ℕ × Pumps) → List Event
walk m [] = []
walk m ((id, p) ∷ clients) = acts id (Pumps.broadcast m) ∷ walk m clients

Fresh-middle :
    (j id : ℕ) (p : Pumps) (xs ys : List (ℕ × Pumps)) → Fresh j (xs ++ (id, p) ∷ ys) → id ≢ j
Fresh-middle j id p [] ys f = f.0
Fresh-middle j id p ((i, q) ∷ xs) ys f = Fresh-middle j id p xs ys f.1

lookup_middle :
    (id : ℕ) (p : Pumps) (xs ys : List (ℕ × Pumps))
    → Distinct (xs ++ (id, p) ∷ ys)
    → lookup id (xs ++ (id, p) ∷ ys) ≡ some p
unfolding lookup
lookup_middle id p [] ys d = rw (==_refl id) refl
lookup_middle id p ((j, q) ∷ xs) ys d =
    ground (arith, lookup_middle id p xs ys d.1, Fresh-middle j id p xs ys d.0)

store_middle :
    (id : ℕ) (p q : Pumps) (xs ys : List (ℕ × Pumps))
    → Distinct (xs ++ (id, p) ∷ ys)
    → store id q (xs ++ (id, p) ∷ ys) ≡ xs ++ (id, q) ∷ ys
unfolding store
store_middle id p q [] ys d = rw (==_refl id) refl
store_middle id p q ((j, r) ∷ xs) ys d =
    ground (arith, store_middle id p q xs ys d.1, Fresh-middle j id p xs ys d.0)

conns-append : (xs ys : List (ℕ × Pumps)) → conns_of (xs ++ ys) ≡ conns_of xs ++ conns_of ys
conns-append [] ys = refl
conns-append ((id, p) ∷ xs) ys = ap (λ l. (id, p.conn) ∷ l) (conns-append xs ys)

-- The offer to a connection, seen from its pumps.
abbrev conn_seen : Ran Pumps → Outcome Conn
conn_seen stuck = panic
conn_seen crashed = panic
conn_seen (at p) = ret p.conn

offer_seen :
    (p : Pumps) (m : Bytes)
    → (offer m p.conn ≡ conn_seen (on_broadcast p m)) × (on_broadcast p m ≢ stuck)
unfolding offer on_broadcast enqueue
offer_seen p m = by_tests p.conn.closed (ltb (length p.conn.queue) send_capacity)
  where
    by_tests :
        (down room : Bool)
        → let sent : Conn = record p.conn { queue = p.conn.queue ++ m ∷ [] } in
          let r : Ran Pumps =
            if down then crashed else if room then at (enqueue p m p.reader) else at p in
          ((if down then panic else if room then ret sent else ret p.conn) ≡ conn_seen r)
          × (r ≢ stuck)
    by_tests true room = (refl, λ e. cc e)
    by_tests false true = (refl, λ e. cc e)
    by_tests false false = (refl, λ e. cc e)

module _ (reply : ℕ → Bytes → Bytes) (m : Bytes) (id_gen : ℕ) where
  -- The clients that the walk has passed, and those before it.
  abbrev walking : List (ℕ × Pumps) → Service
  walking clients = record { id_gen = id_gen; clients = clients }

  abbrev rest_offered : List (ℕ × Pumps) → Outcome (List (ℕ × Conn)) → Outcome Hub
  rest_offered xs o = o >>= λ cs. ret (record { id_gen = id_gen; conns = conns_of xs ++ cs })

  rest_moved :
      (xs : List (ℕ × Pumps)) (id : ℕ) (q : Pumps) (o : Outcome (List (ℕ × Conn)))
      → rest_offered (xs ++ (id, q) ∷ []) o ≡ rest_offered xs (o >>= λ cs. ret ((id, q.conn) ∷ cs))
  rest_moved xs id q panic = refl
  rest_moved xs id q (ret cs) =
      ap (λ l. let h : Hub = record { id_gen = id_gen; conns = l } in ret h)
        (ap (λ l. l ++ cs) (conns-append xs ((id, q) ∷ []))
          ∙ append_assoc (conns_of xs) ((id, q.conn) ∷ []) cs)

  -- The walk went on from a state as the hub does.
  abbrev Agrees : List (ℕ × Pumps) → List (ℕ × Pumps) → Ran Service → Type 0
  Agrees xs ys r = (seen r ≡ rest_offered xs (offer_all m (conns_of ys))) × (r ≢ stuck)

  one_offer :
      (xs ys : List (ℕ × Pumps)) (id : ℕ) (p : Pumps) (r : Ran Pumps)
      → Distinct (xs ++ (id, p) ∷ ys)
      → offer m p.conn ≡ conn_seen r
      → r ≢ stuck
      → ((q : Pumps)
          → Distinct ((xs ++ (id, q) ∷ []) ++ ys)
          → Agrees
              (xs ++ (id, q) ∷ [])
              ys
              (run (step reply) (walking ((xs ++ (id, q) ∷ []) ++ ys)) (walk m ys)))
      → Agrees xs ((id, p) ∷ ys) (
          bind
            (after_act (walking (xs ++ (id, p) ∷ ys)) id r)
            (λ t. run (step reply) t (walk m ys)))
  unfolding after_act offer_all
  one_offer xs ys id p stuck d same ne later = absurd (ne refl)
  one_offer xs ys id p crashed d same ne later = (rw same refl, λ e. cc e)
  one_offer xs ys id p (at q) d same ne later =
      let ih = later q (subst Distinct stored (store-Distinct id q (xs ++ (id, p) ∷ ys) d)) in
      subst
        (λ l.
          (seen (run (step reply) (walking l) (walk m ys))
            ≡ rest_offered xs (offer_all m (conns_of ((id, p) ∷ ys))))
          × (run (step reply) (walking l) (walk m ys) ≢ stuck))
        (sym stored) (ih.0 ∙ rest_moved xs id q (offer_all m (conns_of ys)) ∙ sym offered, ih.1)
    where
      stored : store id q (xs ++ (id, p) ∷ ys) ≡ (xs ++ (id, q) ∷ []) ++ ys
      stored = store_middle id p q xs ys d ∙ sym (append_assoc xs ((id, q) ∷ []) ys)

      offered :
          rest_offered xs (offer_all m (conns_of ((id, p) ∷ ys)))
          ≡ rest_offered xs (offer_all m (conns_of ys) >>= λ cs. ret ((id, q.conn) ∷ cs))
      offered =
          ap
            (λ o.
              rest_offered xs (o >>= λ c. offer_all m (conns_of ys) >>= λ cs. ret ((id, c) ∷ cs)))
            same

  walk-Agrees :
      (xs ys : List (ℕ × Pumps))
      → Distinct (xs ++ ys)
      → Agrees xs ys (run (step reply) (walking (xs ++ ys)) (walk m ys))
  unfolding run step act offer_all Pumps.step
  walk-Agrees xs [] d = (
    ap (λ l. let h : Hub = record { id_gen = id_gen; conns = l } in ret h) (conns-append xs []),
    λ e. cc e,
  )
  walk-Agrees xs ((id, p) ∷ ys) d = rw (lookup_middle id p xs ys d) (
      one_offer xs ys id p (on_broadcast p m) d (offer_seen p m).0 (offer_seen p m).1
        (λ q. walk-Agrees (xs ++ (id, q) ∷ []) ys))

-- Where no id occurs twice, the sends of a `Broadcast` to the connections, one after another and with
-- nothing else in between, are never stuck, and what the hub sees of them is the broadcast in one
-- step: it panics exactly if they do, and else leaves the same queues.
pub broadcast_refines :
    (reply : ℕ → Bytes → Bytes) (s : Service) (m : Bytes)
    → Distinct s.clients
    → (seen (run (step reply) s (walk m s.clients)) ≡ hub_broadcast (hub_of s) m)
      × (run (step reply) s (walk m s.clients) ≢ stuck)
unfolding hub_broadcast
broadcast_refines reply s m d = walk-Agrees reply m s.id_gen [] s.clients d
