-- ===== src/Router/Tick.antt =====
-- What one tick of the router sends (router.go, `aggregate`).
use multi_terminal.Base.{
  ℕ, ◌^◌, ◌==◌, ==_iff, append-nil, append_assoc, ◌<◌, ◌≡◌, refl, sym, ap, ◌∙◌, subst, Bool, List,
  [], ◌∷◌, ◌++◌, Option, none, some, All, All-append, All-both, Bool-cases, ◌⊎◌, inl, inr, false,
}
use multi_terminal.Base.Maps.{lookup, Distinct, Fresh, Distinct-lookup, lookup_of_Fresh}
use multi_terminal.Base.Slices.{Bytes}
use multi_terminal.Base.Outcome.{ret, panic}
use multi_terminal.Codec.{Frame}
use multi_terminal.Session.{Session, Manager, set_slow, put_back}
use multi_terminal.Session
use multi_terminal.Pool.Classes.{IsPool}
use multi_terminal.Ring.{RingBuffer}
use multi_terminal.Router.{Router, visit_all, empty_frame, send_frame, aggregate}
use multi_terminal.Router.Backpressure.{Struck}
use multi_terminal.Router.Walk.{IsWarning, Warns, flagged, flagged-none, Walked, visit-Walked}

ret-injective : {x y : Router} → ret x ≡ ret y → x ≡ y
ret-injective e = cc

module _ (size : ℕ) where
  Warns-trans : {r r' r'' : Router} → Warns r r' → Warns r' r'' → Warns r r''
  Warns-trans {r} u w = record {
    news = u.news ++ w.news;
    sent = w.sent ∙ ap (λ l. l ++ w.news) u.sent ∙ append_assoc r.sent u.news w.news;
    warnings = All-append IsWarning u.news w.news u.warnings w.warnings;
    buffers = w.buffers ∙ u.buffers;
    pool = w.pool;
    hub = w.hub ∙ u.hub;
  }

  -- A session is flagged by the visit of its own buffer, whichever entry that is.
  flagged-cons :
      (o : Option Session) (id j : ℕ) (rb : RingBuffer) (es : List (ℕ × RingBuffer))
      → Fresh id es
      → flagged size (flagged size o (lookup j ((id, rb) ∷ []))) (lookup j es)
        ≡ flagged size o (lookup j ((id, rb) ∷ es))
  unfolding lookup
  flagged-cons o id j rb es f = elim (Bool-cases (id == j)) [
    | inl hit ↦
        let alone : lookup j es ≡ none =
          ap (λ k. lookup k es) (sym ((==_iff id j).0 hit)) ∙ lookup_of_Fresh id es f in
        rw (hit, alone) (flagged-none size _)
    | inr miss ↦ rw miss (ap (λ q. flagged size q (lookup j es)) (flagged-none size o))
  ]

  visit_all-Walked :
      (reuse : ℕ → Bool) (entries : List (ℕ × RingBuffer)) (r : Router) (frame : Frame)
      → IsPool r.pool
      → Distinct entries
      → All (λ e. (e.0 < 2 ^ 32) × (lookup e.0 r.buffers ≡ some e.1)) entries
      → ((after : Router) × (visit_all size reuse (r, frame) entries ≡ ret (after, frame))
          × Walked size r entries after)
        ⊎ ((visit_all size reuse (r, frame) entries ≡ panic) × Struck r)
  unfolding visit_all
  visit_all-Walked reuse [] r frame v d h = inl (
    r,
    refl,
    record {
      warns = record {
        news = [];
        sent = sym (append-nil r.sent);
        warnings = tt;
        buffers = refl;
        pool = v;
        hub = refl;
      };
      flags = λ j. unfold lookup in sym (flagged-none size _);
    },
  )
  visit_all-Walked reuse ((id, rb) ∷ entries) r frame v d h =
      elim (visit-Walked size reuse r frame id rb h.0.0 v h.0.1) [
        | inr (fails, struck) ↦ inr (rw fails refl, struck)
        | inl (r₁, first, one) ↦
            let found : All (λ e. (e.0 < 2 ^ 32) × (lookup e.0 r₁.buffers ≡ some e.1)) entries =
              subst (λ b. All (λ e. (e.0 < 2 ^ 32) × (lookup e.0 b ≡ some e.1)) entries)
                (sym one.warns.buffers) h.1 in
            elim (visit_all-Walked reuse entries r₁ frame one.warns.pool d.1 found) [
              | inr (fails, (k, struck)) ↦
                  inr (rw first fails, (k, ap (λ f. f k) (sym one.warns.hub) ∙ struck))
              | inl (r₂, others, rest) ↦ inl (
                r₂,
                rw first others,
                record {
                  warns = Warns-trans one.warns rest.warns;
                  flags = λ j.
                      rest.flags j
                      ∙ ap (λ o. flagged size o (lookup j entries)) (one.flags j)
                      ∙ flagged-cons (Session.get r.manager j) id j rb entries d.0;
                },
              )
            ]
      ]

  -- A router whose ids are uint32 and whose pool is sorted by size.
  pub record IsRouter (r : Router) : Type 0 where
    pub pooled : IsPool r.pool
    pub distinct : Distinct r.buffers
    pub ids_fit : All (λ e. e.0 < 2 ^ 32) r.buffers

  pub aggregate-Walked :
      (reuse : ℕ → Bool) (r : Router)
      → IsRouter r
      → ((after : Router) × (aggregate size reuse r ≡ ret after) × Walked size r r.buffers after)
        ⊎ ((aggregate size reuse r ≡ panic) × Struck r)
  unfolding aggregate send_frame
  aggregate-Walked reuse r h = elim walked [
    | inl (after, result, w) ↦ inl (after, rw result, w)
    | inr (fails, struck) ↦ inr (rw fails refl, struck)
  ]
    where
      walked :
          ((after : Router) × (visit_all size reuse (r, empty_frame) r.buffers
              ≡ ret (after, empty_frame))
            × Walked size r r.buffers after)
          ⊎ ((visit_all size reuse (r, empty_frame) r.buffers ≡ panic) × Struck r)
      walked = visit_all-Walked reuse r.buffers r empty_frame h.pooled h.distinct (
          All-both (λ e. e.0 < 2 ^ 32) (λ e. lookup e.0 r.buffers ≡ some e.1) r.buffers h.ids_fit
            (Distinct-lookup r.buffers h.distinct))

  -- A tick that returns.
  returned-Walked :
      (reuse : ℕ → Bool) (r after : Router)
      → IsRouter r
      → aggregate size reuse r ≡ ret after
      → Walked size r r.buffers after
  returned-Walked reuse r after h result = elim (aggregate-Walked reuse r h) [
    | inl (after', result', walked) ↦
        subst (Walked size r r.buffers) (ret-injective (sym result' ∙ result)) walked
    | inr (fails, struck) ↦ absurd (cc (fails, result))
  ]

  -- If no call of the hub panics, that is, while no registered connection's channel is closed when
  -- the router broadcasts: a tick of a router with sorted pools and one buffer for each of its 32-bit
  -- ids returns and never delivers output: whatever waits in the buffers stays there, and all that is
  -- broadcast are warnings, which clients read as frames of type 6.
  pub aggregate_delivers_nothing :
      (reuse : ℕ → Bool) (r : Router)
      → IsRouter r
      → ((k : ℕ) → r.hub_panics k ≡ false)
      → (after : Router) × (aggregate size reuse r ≡ ret after)
        × (after.buffers ≡ r.buffers)
        × ((news : List Bytes) × (after.sent ≡ r.sent ++ news) × All IsWarning news)
  aggregate_delivers_nothing reuse r h calm = elim (aggregate-Walked reuse r h) [
    | inl (after, result, walked) ↦
        let w = walked.warns in (after, result, w.buffers, (w.news, w.sent, w.warnings))
    | inr (fails, (k, struck)) ↦ absurd (cc (calm k, struck))
  ]

  -- A tick of a router with sorted pools and one buffer for each of its 32-bit ids sets each
  -- session's slow flag from the state of that session's buffer alone, in whatever order the buffers
  -- are walked, and leaves sessions without a buffer as they are, if it returns.
  pub aggregate_flags :
      (reuse : ℕ → Bool) (r after : Router) (j : ℕ)
      → IsRouter r
      → aggregate size reuse r ≡ ret after
      → Session.get after.manager j ≡ flagged size (Session.get r.manager j) (lookup j r.buffers)
  aggregate_flags reuse r after j h result = (returned-Walked reuse r after h result).flags j

  -- And the router stays well formed.
  pub aggregate-IsRouter :
      (reuse : ℕ → Bool) (r after : Router)
      → IsRouter r
      → aggregate size reuse r ≡ ret after
      → IsRouter after
  aggregate-IsRouter reuse r after h result =
      let walked = returned-Walked reuse r after h result in
      record {
        pooled = walked.warns.pool;
        distinct = subst Distinct (sym walked.warns.buffers) h.distinct;
        ids_fit = subst (All (λ e. e.0 < 2 ^ 32)) (sym walked.warns.buffers) h.ids_fit;
      }
