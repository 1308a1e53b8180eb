-- ===== src/Server/Registration.antt =====
-- The ids that the hub gives, and how long its queues get (server.go).
use multi_terminal.Base.{
  ℕ, ◌+◌, ◌%◌, ◌^◌, ◌≤◌, ◌<◌, ◌≡◌, refl, sym, subst, ◌∙◌, none, some, List, [], ◌∷◌, length,
  length-append, All, arith, ==_refl,
}
use multi_terminal.Base.Maps.{
  lookup, lookup-store, Distinct, Fresh, lookup_of_Fresh, store-Distinct, All-store,
}
use multi_terminal.Base.Slices.{Bytes}
use multi_terminal.Base.Outcome.{ret}
use multi_terminal.Server.{Conn, send_capacity, Hub, next_id, run_register, hub_broadcast}
use multi_terminal.Server.Messages.{IsOpen, with_message, all_with, hub_broadcast_open}

-- No id is above the counter or bound twice, and no queue is longer than the channel allows.
pub record IsHub (h : Hub) : Type 0 where
  pub distinct : Distinct h.conns
  pub given : All (λ e. e.0 ≤ h.id_gen) h.conns
  pub short : All (λ e. length e.1.queue ≤ send_capacity) h.conns

below-Fresh : (k : ℕ) (conns : List (ℕ × Conn)) → All (λ e. e.0 < k) conns → Fresh k conns
below-Fresh k [] below = tt
below-Fresh k ((j, d) ∷ conns) below = (omega (arith, below.0), below-Fresh k conns below.1)

weaken :
    (a b : ℕ) (conns : List (ℕ × Conn))
    → a < b
    → All (λ e. e.0 ≤ a) conns
    → All (λ e. e.0 < b) conns
weaken a b [] h old = tt
weaken a b ((j, d) ∷ conns) h old = (omega (arith, old.0), weaken a b conns h old.1)

strict-le : (b : ℕ) (conns : List (ℕ × Conn)) → All (λ e. e.0 < b) conns → All (λ e. e.0 ≤ b) conns
strict-le b [] h = tt
strict-le b ((j, d) ∷ conns) h = (omega (arith, h.0), strict-le b conns h.1)

-- Until the 32-bit counter of a well-formed hub wraps, the registration of a connection with at most
-- 256 messages displaces no connection: its id, which takes the
-- place of whatever id the connection came with, was bound to none, is bound to the connection
-- afterwards, and the hub stays well formed.
pub run_register-IsHub :
    (h : Hub) (c : Conn)
    → IsHub h
    → length c.queue ≤ send_capacity
    → h.id_gen + 1 < 2 ^ 32
    → (lookup (next_id h) h.conns ≡ none)
      × (lookup (next_id h) (run_register h c).conns ≡ some (record c { id = next_id h }))
      × IsHub (run_register h c)
unfolding run_register next_id
run_register-IsHub h c v short room = rw fits (
  lookup_of_Fresh _ h.conns (below-Fresh _ h.conns below),
  lookup-store _ _ (record c { id = h.id_gen + 1 }) h.conns ∙ rw (==_refl (h.id_gen + 1)) refl,
  record {
    distinct = store-Distinct _ _ h.conns v.distinct;
    given = All-store _ _ _ h.conns (omega arith) (strict-le _ h.conns below);
    short = All-store _ _ _ h.conns short v.short;
  },
)
  where
    fits : (h.id_gen + 1) % 2 ^ 32 ≡ h.id_gen + 1
    fits = omega arith

    below : All (λ e. e.0 < h.id_gen + 1) h.conns
    below = weaken h.id_gen (h.id_gen + 1) h.conns (omega arith) v.given

ret-injective : {x y : Hub} → ret x ≡ ret y → x ≡ y
ret-injective e = cc

Fresh-all_with :
    (message : Bytes) (k : ℕ) (conns : List (ℕ × Conn))
    → Fresh k conns
    → Fresh k (all_with message conns)
Fresh-all_with message k [] f = tt
Fresh-all_with message k ((j, d) ∷ conns) f = (f.0, Fresh-all_with message k conns f.1)

Distinct-all_with :
    (message : Bytes) (conns : List (ℕ × Conn)) → Distinct conns → Distinct (all_with message conns)
Distinct-all_with message [] d = tt
Distinct-all_with message ((j, c) ∷ conns) d =
    (Fresh-all_with message j conns d.0, Distinct-all_with message conns d.1)

given-all_with :
    (message : Bytes) (n : ℕ) (conns : List (ℕ × Conn))
    → All (λ e. e.0 ≤ n) conns
    → All (λ e. e.0 ≤ n) (all_with message conns)
given-all_with message n [] h = tt
given-all_with message n ((j, c) ∷ conns) h = (h.0, given-all_with message n conns h.1)

short-with_message :
    (message : Bytes) (c : Conn)
    → length c.queue ≤ send_capacity
    → length (with_message message c).queue ≤ send_capacity
short-with_message message c h = ground (arith, length-append c.queue (message ∷ []))

short-all_with :
    (message : Bytes) (conns : List (ℕ × Conn))
    → All (λ e. length e.1.queue ≤ send_capacity) conns
    → All (λ e. length e.1.queue ≤ send_capacity) (all_with message conns)
short-all_with message [] h = tt
short-all_with message ((j, c) ∷ conns) h =
    (short-with_message message c h.0, short-all_with message conns h.1)

-- A broadcast that returns leaves a well-formed hub with open connections well formed: in particular no queue grows beyond
-- the channel's 256 messages.
pub hub_broadcast-IsHub :
    (h after : Hub) (message : Bytes)
    → IsHub h
    → All IsOpen h.conns
    → hub_broadcast h message ≡ ret after
    → IsHub after
hub_broadcast-IsHub h after message v up returned = subst IsHub same walked
  where
    walked : IsHub (record h { conns = all_with message h.conns })
    walked = record {
      distinct = Distinct-all_with message h.conns v.distinct;
      given = given-all_with message h.id_gen h.conns v.given;
      short = short-all_with message h.conns v.short;
    }

    same : record h { conns = all_with message h.conns } ≡ after
    same = ret-injective (sym (hub_broadcast_open h message up) ∙ returned)
