-- ===== src/Router/Walk.antt =====
-- What one buffer's turn in a tick changes (router.go, `aggregate`).
use multi_terminal.Base.{
  ℕ, ◌^◌, ◌==◌, ==_iff, append-nil, ◌<◌, ◌≡◌, refl, sym, ap, ◌∙◌, subst, Bool, ◌&&◌, ◌||◌, not,
  List, [], ◌∷◌, ◌++◌, Option, none, some, arith, All, Bool-cases, Option-cases, ◌⊎◌, inl, inr,
}
use native.Mathlib.Nat.{add-zero}
use multi_terminal.Base.Maps.{lookup, store_same}
use multi_terminal.Base.Slices.{Bytes}
use multi_terminal.Base.Outcome.{ret, panic}
use multi_terminal.Codec.{Frame, ok, deserialize}
use multi_terminal.Session.{Session, Manager, set_slow, put_back}
use multi_terminal.Session
use multi_terminal.Pool.{Slice}
use multi_terminal.Pool
use multi_terminal.Pool.Classes.{IsPool, get_lem, put-IsPool}
use multi_terminal.Ring.{RingBuffer, try_read, is_high, is_low}
use multi_terminal.Router.{
  Router, slow_warning, add_block, collect, collect_unless_slow, check_marks, visit,
}
use multi_terminal.Router.Backpressure.{
  warning, deserialize-warning, next_slow, marked, check_marks_lem, get-marked, buffers-marked,
  sent-marked, Struck,
}

-- A message that warns of a session, as a client reads it.
abbrev pub IsWarning : Bytes → Type 0
IsWarning m = (id : ℕ) × (slow : Bool) × (deserialize m ≡ ret (ok (slow_warning id slow)))

-- A part of a tick from one state of the router to another: nothing but warnings is sent, and the
-- buffers are those from before.
pub record Warns (r : Router) (r' : Router) : Type 0 where
  pub news : List Bytes
  pub sent : r'.sent ≡ r.sent ++ news
  pub warnings : All IsWarning news
  pub buffers : r'.buffers ≡ r.buffers
  pub pool : IsPool r'.pool
  pub hub : r'.hub_panics ≡ r.hub_panics

module _ (size : ℕ) where
  -- `TryRead` into a slice of length 0 takes nothing.
  try_read_zero :
      (rb : RingBuffer) → ((try_read size rb 0).count ≡ 0) × ((try_read size rb 0).ring ≡ rb)
  unfolding try_read
  try_read_zero rb = ground (arith, add-zero rb.read)

  -- The pooled slice has length 0, so nothing is read: only the pool changes.
  pub collect_nothing :
      (reuse : ℕ → Bool) (r : Router) (frame : Frame) (id : ℕ) (rb : RingBuffer)
      → IsPool r.pool
      → lookup id r.buffers ≡ some rb
      → (pool : Pool.Pool) × (collect size reuse (r, frame) id rb
          ≡ (record r { pool = pool }, frame))
        × IsPool pool
  unfolding collect add_block
  collect_nothing reuse r frame id rb v found = (
    Pool.put (Pool.get r.pool 4096 (reuse id)).1 (Pool.get r.pool 4096 (reuse id)).0,
    rw (
      (get_lem r.pool 4096 (reuse id) v).0,
      (try_read_zero rb).0,
      (try_read_zero rb).1,
      store_same id rb r.buffers found,
    ),
    put-IsPool _ _ (get_lem r.pool 4096 (reuse id) v).3,
  )

  marked-Warns :
      (r : Router) (id : ℕ) (s : Session) (rb : RingBuffer)
      → id < 2 ^ 32
      → IsPool r.pool
      → Warns r (marked size r id s rb)
  marked-Warns r id s rb h v =
      elim (Bool-cases (is_high size rb && not s.is_slow || is_low size rb && s.is_slow)) [
        | inl crossed ↦ record {
          news = warning id (not s.is_slow) ∷ [];
          sent = sent-marked size r id s rb ∙ rw crossed;
          warnings = ((id, not s.is_slow, deserialize-warning id (not s.is_slow) h), tt);
          buffers = (buffers-marked size r id s rb).0;
          pool = subst IsPool (sym (buffers-marked size r id s rb).1) v;
          hub = (buffers-marked size r id s rb).2;
        }
        | inr between ↦ record {
          news = [];
          sent = sent-marked size r id s rb ∙ rw between (sym (append-nil r.sent));
          warnings = tt;
          buffers = (buffers-marked size r id s rb).0;
          pool = subst IsPool (sym (buffers-marked size r id s rb).1) v;
          hub = (buffers-marked size r id s rb).2;
        }
      ]

  -- A session's slow flag after its buffer was visited, where it has one.
  abbrev pub flagged : Option Session → Option RingBuffer → Option Session
  flagged none rb = none
  flagged (some s) none = some s
  flagged (some s) (some rb) = some (set_slow s (next_slow size s rb))

  pub flagged-none : (o : Option Session) → flagged o none ≡ o
  flagged-none none = refl
  flagged-none (some s) = refl

  collect_unless_slow-Warns :
      (reuse : ℕ → Bool) (r₀ r : Router) (frame : Frame) (id : ℕ) (rb : RingBuffer)
      → Warns r₀ r
      → lookup id r₀.buffers ≡ some rb
      → (after : Router) × (collect_unless_slow size reuse (r, frame) id rb ≡ (after, frame))
        × Warns r₀ after
        × (after.manager ≡ r.manager)
  unfolding collect_unless_slow
  collect_unless_slow-Warns reuse r₀ r frame id rb w found =
      elim (Option-cases (Session.get r.manager id)) [
        | inl gone ↦ (r, rw (collect_unless_slow, gone), w, refl)
        | inr (s, there) ↦ elim (Bool-cases s.is_slow) [
          | inl slow ↦ (r, rw (collect_unless_slow, there, slow), w, refl)
          | inr quick ↦
              let (pool, result, valid) =
                collect_nothing reuse r frame id rb w.pool (rw w.buffers found) in
              (
                record r { pool = pool },
                rw (collect_unless_slow, there, quick) result,
                record {
                  news = w.news;
                  sent = w.sent;
                  warnings = w.warnings;
                  buffers = w.buffers;
                  pool = valid;
                  hub = w.hub;
                },
                refl,
              )
        ]
      ]

  -- The walk over some buffers: each session's marks, and nothing read.
  pub record Walked (r : Router) (entries : List (ℕ × RingBuffer)) (r' : Router) : Type 0 where
    pub warns : Warns r r'
    pub flags :
        (j : ℕ) → Session.get r'.manager j ≡ flagged (Session.get r.manager j) (lookup j entries)

  flags_of_none :
      (r : Router) (id : ℕ) (rb : RingBuffer)
      → Session.get r.manager id ≡ none
      → (j : ℕ)
      → Session.get r.manager j ≡ flagged (Session.get r.manager j) (lookup j ((id, rb) ∷ []))
  unfolding lookup
  flags_of_none r id rb gone j = elim (Bool-cases (id == j)) [
    | inl hit ↦
        let missing : Session.get r.manager j ≡ none =
          ap (Session.get r.manager) (sym ((==_iff id j).0 hit)) ∙ gone in
        rw (hit, missing)
    | inr miss ↦ rw miss (sym (flagged-none _))
  ]

  flags_of_some :
      (r : Router) (id : ℕ) (rb : RingBuffer) (s : Session)
      → Session.get r.manager id ≡ some s
      → (j : ℕ)
      → Session.get (marked size r id s rb).manager j
        ≡ flagged (Session.get r.manager j) (lookup j ((id, rb) ∷ []))
  unfolding lookup
  flags_of_some r id rb s there j = elim (Bool-cases (id == j)) [
    | inl hit ↦
        let same : Session.get r.manager j ≡ some s =
          ap (Session.get r.manager) (sym ((==_iff id j).0 hit)) ∙ there in
        get-marked size r id j s rb there ∙ rw (hit, same)
    | inr miss ↦ get-marked size r id j s rb there ∙ rw miss (sym (flagged-none _))
  ]

  -- The visit of a session that was found.
  found-Walked :
      (reuse : ℕ → Bool) (r : Router) (frame : Frame) (id : ℕ) (rb : RingBuffer) (s : Session)
      → id < 2 ^ 32
      → IsPool r.pool
      → lookup id r.buffers ≡ some rb
      → Session.get r.manager id ≡ some s
      → check_marks size r id s rb ≡ ret (marked size r id s rb)
      → (after : Router) × (visit size reuse (r, frame) (id, rb) ≡ ret (after, frame))
        × Walked r ((id, rb) ∷ []) after
  unfolding visit
  found-Walked reuse r frame id rb s h v found there checked =
      let (after, result, w, same) =
        collect_unless_slow-Warns reuse r (marked size r id s rb) frame id rb
          (marked-Warns r id s rb h v) found in
      (
        after,
        rw (visit, there, checked) (ap ret result),
        record {
          warns = w;
          flags = λ j. ap (λ m. Session.get m j) same ∙ flags_of_some r id rb s there j;
        },
      )

  pub visit-Walked :
      (reuse : ℕ → Bool) (r : Router) (frame : Frame) (id : ℕ) (rb : RingBuffer)
      → id < 2 ^ 32
      → IsPool r.pool
      → lookup id r.buffers ≡ some rb
      → ((after : Router) × (visit size reuse (r, frame) (id, rb) ≡ ret (after, frame))
          × Walked r ((id, rb) ∷ []) after)
        ⊎ ((visit size reuse (r, frame) (id, rb) ≡ panic) × Struck r)
  unfolding visit
  visit-Walked reuse r frame id rb h v found = elim (Option-cases (Session.get r.manager id)) [
    | inl gone ↦ inl (
      r,
      rw (visit, gone),
      record {
        warns = record {
          news = [];
          sent = sym (append-nil r.sent);
          warnings = tt;
          buffers = refl;
          pool = v;
          hub = refl;
        };
        flags = flags_of_none r id rb gone;
      },
    )
    | inr (s, there) ↦ elim (check_marks_lem size r id s rb h) [
      | inl checked ↦ inl (found-Walked reuse r frame id rb s h v found there checked)
      | inr (fails, struck) ↦ inr (rw (visit, there, fails) refl, struck)
    ]
  ]
