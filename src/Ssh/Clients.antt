-- ===== src/Ssh/Clients.antt =====
-- The clients that the manager holds (ssh/manager.go).
use Prim.Native.String.{String}
use text.Mathlib.Text.{◌==◌ as str_eq}
use text.Mathlib.TextEquality.{eq_iff}
use multi_terminal.Base.{ℕ, ◌≡◌, refl, ap, ◌∙◌, Option, none, some, [], ◌∷◌, if◌then◌else◌, arith}
use multi_terminal.Ssh.{
  Client, dial_failed, connect, Clients, load_client, store_client, delete_client, Created, client,
  failed, store_connected, create, get_or_create_from, get_or_create, close_found, close_client,
}

load-store_client :
    (host j : String) (c : Client) (m : Clients)
    → load_client j (store_client host c m) ≡ (if str_eq host j then some c else load_client j m)
unfolding load_client store_client
load-store_client host j c [] = refl
load-store_client host j c ((k, d) ∷ m) =
    ground (arith, eq_iff host j, eq_iff k host, eq_iff k j, load-store_client host j c m)

load-delete_client :
    (host j : String) (m : Clients)
    → load_client j (delete_client host m) ≡ (if str_eq host j then none else load_client j m)
unfolding load_client delete_client
load-delete_client host j [] = ground arith
load-delete_client host j ((k, d) ∷ m) =
    ground (arith, eq_iff host j, eq_iff k host, eq_iff k j, load-delete_client host j m)

load_stored :
    (host : String) (c : Client) (m : Clients) → load_client host (store_client host c m) ≡ some c
load_stored host c m = load-store_client host host c m ∙ rw ((eq_iff host host).1 refl) refl

load_deleted : (host : String) (m : Clients) → load_client host (delete_client host m) ≡ none
load_deleted host m = load-delete_client host host m ∙ rw ((eq_iff host host).1 refl) refl

abbrev pub connected : ℕ → Client
connected n = record { connection = some n }

-- The answer of GetOrCreate and what the host has afterwards, by what it had and the dial.
abbrev pub answer_of : Option Client → Option ℕ → Created
answer_of (some c) dialled = client c
answer_of none (some n) = client (connected n)
answer_of none none = failed dial_failed

abbrev pub held_after : Option Client → Option ℕ → Option Client
held_after (some c) dialled = some c
held_after none (some n) = some (connected n)
held_after none none = none

-- `GetOrCreate` answers with the client that the host has, without a new connection; otherwise with the
-- one that the dial gives, which the host has from then on, or with the dial's error, which leaves the
-- host without. No other host's client changes.
pub get_or_create_lem :
    (m : Clients) (host j : String) (dialled : Option ℕ)
    → let had = load_client host m in
      ((get_or_create m host dialled).1 ≡ answer_of had dialled)
      × (load_client j (get_or_create m host dialled).0
          ≡ (if str_eq host j then held_after had dialled else load_client j m))
unfolding get_or_create
get_or_create_lem m host j dialled = by_found (load_client host m) refl dialled
  where
    kept :
        (o : Option Client)
        → load_client host m ≡ o
        → load_client j m ≡ (if str_eq host j then o else load_client j m)
    kept o had = ground (arith, eq_iff host j, had)

    by_found :
        (o : Option Client)
        → load_client host m ≡ o
        → (d : Option ℕ)
        → ((get_or_create_from o m host d).1 ≡ answer_of o d)
          × (load_client j (get_or_create_from o m host d).0
              ≡ (if str_eq host j then held_after o d else load_client j m))
    by_found (some c) had d = unfold get_or_create_from in (refl, kept (some c) had)
    by_found none had none =
        unfold get_or_create_from create connect store_connected in (refl, kept none had)
    by_found none had (some n) =
        unfold get_or_create_from create connect store_connected in
        (refl, load-store_client host j (connected n) m)

-- Two calls for a host that both find no client before one of them stores its own leak a connection:
-- both callers get a client of their own, but the manager has the second only, so that `Close` closes
-- the second connection and then knows the host no more.
pub concurrent_create_leaks :
    (m : Clients) (host : String) (a b : ℕ)
    → let first = get_or_create_from none m host (some a) in
      let second = get_or_create_from none first.0 host (some b) in
      let closed = close_client second.0 host in
      (first.1 ≡ client (connected a))
      × (second.1 ≡ client (connected b))
      × (closed.1 ≡ some b)
      × (load_client host closed.0 ≡ none)
unfolding get_or_create_from create connect store_connected close_client close_found
concurrent_create_leaks m host a b = (
  refl,
  refl,
  ap (λ o. (close_found o stored host).1) here,
  ap (λ o. load_client host (close_found o stored host).0) here ∙ load_deleted host stored,
)
  where
    stored : Clients
    stored = store_client host (connected b) (store_client host (connected a) m)

    here : load_client host stored ≡ some (connected b)
    here = load_stored host (connected b) (store_client host (connected a) m)
