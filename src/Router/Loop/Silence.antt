-- ===== src/Router/Loop/Silence.antt =====
-- What a router sends in its whole life (router/router.go).
use multi_terminal.Base.{
  ℕ, ◌-◌, ◌^◌, ◌<◌, ◌≡◌, refl, sym, subst, Bool, true, false, List, Option, none, some, ltb,
  if◌then◌else◌, All, All-append, not, inl, inr,
}
use multi_terminal.Base.Maps.{
  lookup, store-Distinct, delete-Distinct, All-store, All-delete, lookup-All,
}
use multi_terminal.Base.Steps.{Ran, stuck, crashed, at, Holds, run, reached}
use multi_terminal.Session.{Manager}
use multi_terminal.Pool.{Pool}
use multi_terminal.Pool.Classes.{IsPool}
use multi_terminal.Ring.{RingBuffer, new_ring}
use multi_terminal.Router.{register_buffer, unregister_buffer, aggregate}
use multi_terminal.Router.Walk.{IsWarning}
use multi_terminal.Router.Tick.{IsRouter, aggregate-Walked, aggregate-IsRouter}
use multi_terminal.Router.Loop.{
  Life, Event, start_called, stop_called, returned, ticked, registered, unregistered, closed, wrote,
  sessions_changed, new_router, unborn, start, stop, after_tick, on_buffer, step,
}

-- An id is a uint32.
abbrev pub Fits : Event → Type 0
Fits (registered id) = id < 2 ^ 32
Fits start_called = Unit {0}
Fits stop_called = Unit {0}
Fits returned = Unit {0}
Fits (ticked reuse) = Unit {0}
Fits (unregistered id) = Unit {0}
Fits (closed id) = Unit {0}
Fits (wrote id bytes) = Unit {0}
Fits (sessions_changed manager) = Unit {0}

module _ (size : ℕ) where
  -- The router is well formed, and has sent nothing but warnings.
  pub record IsSilent (l : Life) : Type 0 where
    pub router : IsRouter size l.router
    pub warnings : All IsWarning l.router.sent

  ticked-Holds :
      (l : Life) (reuse : ℕ → Bool)
      → IsSilent l
      → Holds IsSilent (after_tick l (aggregate size reuse l.router))
  unfolding after_tick
  ticked-Holds l reuse v = elim (aggregate-Walked size reuse l.router v.router) [
    | inl (after, done, walked) ↦
        let w = walked.warns in
        rw done (record {
          router = aggregate-IsRouter size reuse l.router after v.router done;
          warnings =
              subst (All IsWarning) (sym w.sent)
                (All-append IsWarning l.router.sent w.news v.warnings w.warnings);
        })
    | inr (fails, struck) ↦ rw fails tt
  ]

  buffer-Holds :
      (l : Life) (id : ℕ) (f : RingBuffer → RingBuffer)
      → IsSilent l
      → Holds IsSilent (on_buffer l id f (lookup id l.router.buffers))
  unfolding on_buffer
  buffer-Holds l id f v = by_found (lookup id l.router.buffers) refl
    where
      by_found :
          (o : Option RingBuffer)
          → lookup id l.router.buffers ≡ o
          → Holds IsSilent (on_buffer l id f o)
      by_found none e = tt
      by_found (some rb) e = record {
        router = record {
          pooled = v.router.pooled;
          distinct = store-Distinct id (f rb) l.router.buffers v.router.distinct;
          ids_fit =
              All-store (λ e. e.0 < 2 ^ 32) id (f rb) l.router.buffers
                (lookup-All (λ e. e.0 < 2 ^ 32) id rb l.router.buffers v.router.ids_fit e)
                v.router.ids_fit;
        };
        warnings = v.warnings;
      }

  registered-IsSilent :
      (l : Life) (id : ℕ)
      → id < 2 ^ 32
      → IsSilent l
      → IsSilent (record l { router = register_buffer size l.router id })
  unfolding register_buffer
  registered-IsSilent l id fits v = record {
    router = record {
      pooled = v.router.pooled;
      distinct = store-Distinct id (new_ring size) l.router.buffers v.router.distinct;
      ids_fit =
          All-store (λ e. e.0 < 2 ^ 32) id (new_ring size) l.router.buffers fits v.router.ids_fit;
    };
    warnings = v.warnings;
  }

  unregistered-IsSilent :
      (l : Life) (id : ℕ)
      → IsSilent l
      → IsSilent (record l { router = unregister_buffer l.router id })
  unfolding unregister_buffer
  unregistered-IsSilent l id v = record {
    router = record {
      pooled = v.router.pooled;
      distinct = delete-Distinct id l.router.buffers v.router.distinct;
      ids_fit = All-delete (λ e. e.0 < 2 ^ 32) id l.router.buffers v.router.ids_fit;
    };
    warnings = v.warnings;
  }

  same_router : (l l' : Life) → l'.router ≡ l.router → IsSilent l → IsSilent l'
  same_router l l' e v = record {
    router = subst (IsRouter size) (sym e) v.router;
    warnings = subst (λ r. All IsWarning r.sent) (sym e) v.warnings;
  }

  guarded : (b : Bool) (r : Ran Life) → Holds IsSilent r → Holds IsSilent (if b then r else stuck)
  guarded true r h = h
  guarded false r h = tt

  stop-Holds : (l : Life) → IsSilent l → Holds IsSilent (stop l)
  unfolding stop
  stop-Holds l v = by_tests l.ticking l.stopped
    where
      by_tests :
          (ticking stopped : Bool)
          → Holds IsSilent (
              if not ticking
              then crashed
              else if stopped
              then crashed
              else at (record l { stopped = true }))
      by_tests false stopped = tt
      by_tests true true = tt
      by_tests true false = same_router l _ refl v

  step-Holds : (l : Life) (e : Event) → Fits e → IsSilent l → Holds IsSilent (step size l e)
  unfolding step start
  step-Holds l start_called k v = same_router l _ refl v
  step-Holds l stop_called k v = stop-Holds l v
  step-Holds l (ticked reuse) k v =
      guarded (ltb 0 l.goroutines) (after_tick l (aggregate size reuse l.router))
        (ticked-Holds l reuse v)
  step-Holds l returned k v =
      guarded (ltb 0 l.goroutines)
        (if l.stopped then at (record l { goroutines = l.goroutines - 1 }) else stuck)
        (guarded l.stopped (at (record l { goroutines = l.goroutines - 1 }))
          (same_router l _ refl v))
  step-Holds l (registered id) k v = registered-IsSilent l id k v
  step-Holds l (unregistered id) k v = unregistered-IsSilent l id v
  step-Holds l (wrote id bytes) k v = buffer-Holds l id _ v
  step-Holds l (closed id) k v = buffer-Holds l id _ v
  step-Holds l (sessions_changed manager) k v = record {
    router = record {
      pooled = v.router.pooled;
      distinct = v.router.distinct;
      ids_fit = v.router.ids_fit;
    };
    warnings = v.warnings;
  }

  unborn-IsSilent :
      (hub_panics : ℕ → Bool) (manager : Manager) (pool : Pool)
      → IsPool pool
      → IsSilent (unborn hub_panics manager pool)
  unfolding unborn new_router
  unborn-IsSilent hub_panics manager pool pooled = record {
    router = record { pooled = pooled; distinct = tt; ids_fit = tt };
    warnings = tt;
  }

  -- Whatever happens to a new router with a sorted pool, in any order, with registrations under 32-bit
  -- ids, and whenever its hub panics: as long as it runs, it never sends terminal output, whatever the shells write into its buffers. All that it sends
  -- are warnings, which clients read as frames of type 6.
  pub router_stays_silent :
      (hub_panics : ℕ → Bool) (manager : Manager) (pool : Pool) (es : List Event) (l : Life)
      → IsPool pool
      → All Fits es
      → run (step size) (unborn hub_panics manager pool) es ≡ at l
      → All IsWarning l.router.sent
  router_stays_silent hub_panics manager pool es l pooled fits h =
      let v : IsSilent l =
        reached (step size) IsSilent Fits (unborn hub_panics manager pool) l es step-Holds fits
          (unborn-IsSilent hub_panics manager pool pooled) h in
      v.warnings
