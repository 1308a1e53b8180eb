-- ===== src/Server/Service/Alone.antt =====
-- One connection among the events of all (server.go and conn.go).
use multi_terminal.Base.{
  ℕ, ◌+◌, ◌%◌, ◌^◌, ◌<◌, ◌≡◌, refl, sym, ap, subst, ◌∙◌, Bool, true, false, Option, none, some,
  List, [], ◌∷◌, ◌==◌, ==_refl, if◌then◌else◌, All, arith,
}
use multi_terminal.Base.Maps.{lookup, store, lookup-store}
use multi_terminal.Base.Slices.{Bytes}
use multi_terminal.Base.Steps.{Ran, crashed, at, bind, run}
use multi_terminal.Server.Pumps.{Pumps, start}
use multi_terminal.Server.Pumps
use multi_terminal.Server.Pumps.Healthy.{is_failure}
use multi_terminal.Server.Service.{Service, Event, registered, acts, register}

abbrev pub registrations : List Event → ℕ
registrations [] = 0
registrations (registered ∷ es) = 1 + registrations es
registrations (acts id e ∷ es) = registrations es

-- What happens to one connection.
abbrev pub own_events : ℕ → List Event → List Pumps.Event
own_events n [] = []
own_events n (registered ∷ es) = own_events n es
own_events n (acts id e ∷ es) = if id == n then e ∷ own_events n es else own_events n es

-- A read, a write or a ping of some connection fails.
abbrev pub fails : Event → Bool
fails registered = false
fails (acts id e) = is_failure e

pub own-healthy :
    (n : ℕ) (es : List Event)
    → All (λ e. fails e ≡ false) es
    → All (λ e. is_failure e ≡ false) (own_events n es)
own-healthy n [] h = tt
own-healthy n (registered ∷ es) h = own-healthy n es h.1
own-healthy n (acts id e ∷ es) h = by_id (id == n) (own-healthy n es h.1)
  where
    by_id :
        (b : Bool)
        → All (λ e. is_failure e ≡ false) (own_events n es)
        → All (λ e. is_failure e ≡ false) (if b then e ∷ own_events n es else own_events n es)
    by_id true rest = (h.0, rest)
    by_id false rest = rest

-- A connection, or the one that will be registered under the id.
abbrev pub life : ℕ → Option Pumps → Pumps
life n none = start n
life n (some p) = p

-- Ids above the counter are not given.
abbrev pub Unused : Service → Type 0
Unused s = (n : ℕ) → s.id_gen < n → lookup n s.clients ≡ none

module _ (reply : ℕ → Bytes → Bytes) where
  -- One connection with its own events, and no other connection.
  abbrev pub alone : ℕ → Service → List Event → Ran Pumps
  alone n s es = run (Pumps.step (reply n)) (life n (lookup n s.clients)) (own_events n es)

  pub register-Unused : (s : Service) → Unused s → s.id_gen + 1 < 2 ^ 32 → Unused (register s)
  unfolding register
  register-Unused s v room n above =
      let i = (s.id_gen + 1) % 2 ^ 32 in
      let fits : i ≡ s.id_gen + 1 = omega arith in
      ground (arith, lookup-store i n (start i) s.clients, v n (omega (arith, fits, above)), fits)

  pub alone-register :
      (n : ℕ) (s : Service) (es : List Event)
      → Unused s
      → s.id_gen + 1 < 2 ^ 32
      → alone n s (registered ∷ es) ≡ alone n (register s) es
  unfolding register
  alone-register n s es v room =
      ap (λ p. run (Pumps.step (reply n)) p (own_events n es))
        (by_id (id == n) refl ∙ ap (life n) (sym (lookup-store id n (start id) s.clients)))
    where
      id : ℕ
      id = (s.id_gen + 1) % 2 ^ 32

      by_id :
          (b : Bool)
          → (id == n) ≡ b
          → life n (lookup n s.clients) ≡ life n (if b then some (start id) else lookup n s.clients)
      by_id false e = refl
      by_id true e =
          let same : id ≡ n = ground (arith, e) in
          ap (life n) (v n (omega (arith, same))) ∙ ap start (sym same)

  pub alone-store :
      (n id : ℕ) (s : Service) (p q : Pumps) (e : Pumps.Event) (es : List Event)
      → lookup id s.clients ≡ some p
      → Pumps.step (reply id) p e ≡ at q
      → alone n s (acts id e ∷ es) ≡ alone n (record s { clients = store id q s.clients }) es
  unfolding run
  alone-store n id s p q e es found moved =
      by_id (id == n) refl
      ∙ ap (λ o. run (Pumps.step (reply n)) (life n o) (own_events n es))
          (sym (lookup-store id n q s.clients))
    where
      by_id :
          (b : Bool)
          → (id == n) ≡ b
          → run
              (Pumps.step (reply n))
              (life n (lookup n s.clients))
              (if b then e ∷ own_events n es else own_events n es)
            ≡ run
                (Pumps.step (reply n))
                (life n (if b then some q else lookup n s.clients))
                (own_events n es)
      by_id false miss = refl
      by_id true hit =
          let same : id ≡ n = ground (arith, hit) in
          ap
            (λ o.
              bind (Pumps.step (reply n) (life n o) e)
                (λ t. run (Pumps.step (reply n)) t (own_events n es)))
            (subst (λ k. lookup k s.clients ≡ some p) same found)
          ∙ ap (λ r. bind r (λ t. run (Pumps.step (reply n)) t (own_events n es)))
              (subst (λ k. Pumps.step (reply k) p e ≡ at q) same moved)

  -- A panic of one connection.
  pub alone-crashes :
      (id : ℕ) (s : Service) (p : Pumps) (e : Pumps.Event) (es : List Event)
      → lookup id s.clients ≡ some p
      → Pumps.step (reply id) p e ≡ crashed
      → alone id s (acts id e ∷ es) ≡ crashed
  unfolding run
  alone-crashes id s p e es found moved = rw (==_refl id, found, moved) refl
