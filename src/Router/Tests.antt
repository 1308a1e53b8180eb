-- ===== src/Router/Tests.antt =====
-- The theorems on router/router.go at a router with one session.
use multi_terminal.Base.{ℕ, ◌≡◌, refl, ap, Bool, true, false, List, [], ◌∷◌, ◌++◌, All, arith}
use multi_terminal.Base.Maps.{lookup}
use multi_terminal.Base.Slices.{Bytes}
use multi_terminal.Base.Outcome.{ret}
use multi_terminal.Session.{active, Session, prompt_unknown, default_ttl, Manager}
use multi_terminal.Session
use multi_terminal.Pool.{new_pool}
use multi_terminal.Pool.Classes.{new_pool-IsPool}
use multi_terminal.Ring.{RingBuffer}
use multi_terminal.Router.{Router, aggregate}
use multi_terminal.Router.Walk.{IsWarning, flagged}
use multi_terminal.Base.Steps.{at, bind, run}
use multi_terminal.Router.Loop
use multi_terminal.Router.Loop.{Life, Event, start_called, ticked, registered, wrote, unborn, step}
use multi_terminal.Router.Loop.Silence.{router_stays_silent}
use multi_terminal.Router.Tick.{IsRouter, aggregate_delivers_nothing, aggregate_flags}

abbrev here : Session
here = record {
  session_id = 7;
  user_id = "u";
  host_id = "h";
  cols = 80;
  rows = 24;
  state = active;
  last_active_at = 1000;
  write_buffer_size = 0;
  is_slow = false;
  prompt_state = prompt_unknown;
  has_stream = true;
}

abbrev crowded_ring : RingBuffer
crowded_ring = record { bytes = 11 ∷ 12 ∷ 13 ∷ 14 ∷ []; write = 4; read = 0; closed = false }

abbrev never_panics : ℕ → Bool
never_panics k = false

-- The session's buffer of four bytes is full.
abbrev crowded : Router
crowded =
    let sessions : Manager = record { sessions = (7, here) ∷ []; ttl = default_ttl } in
    record {
      buffers = (7, crowded_ring) ∷ [];
      manager = sessions;
      pool = new_pool;
      sent = [];
      hub_panics = never_panics;
    }

crowded-IsRouter : IsRouter 4 crowded
crowded-IsRouter = record {
  pooled = new_pool-IsPool;
  distinct = (tt, tt);
  ids_fit = (omega arith, tt);
}

abbrev never_reuse : ℕ → Bool
never_reuse id = false

aggregate_delivers_nothing_example :
    (after : Router) × (aggregate 4 never_reuse crowded ≡ ret after)
    × (after.buffers ≡ crowded.buffers)
    × ((news : List Bytes) × (after.sent ≡ crowded.sent ++ news) × All (IsWarning) news)
aggregate_delivers_nothing_example =
    aggregate_delivers_nothing 4 never_reuse crowded crowded-IsRouter (λ k. refl)

-- The router after a tick.
abbrev after_tick : Router
after_tick = (aggregate_delivers_nothing 4 never_reuse crowded crowded-IsRouter (λ k. refl)).0

aggregate_flags_example :
    Session.get after_tick.manager 7
    ≡ flagged 4 (Session.get crowded.manager 7) (lookup 7 crowded.buffers)
aggregate_flags_example =
    aggregate_flags 4 never_reuse crowded after_tick 7 crowded-IsRouter
      (aggregate_delivers_nothing 4 never_reuse crowded crowded-IsRouter (λ k. refl)).1

-- The buffer of the session is filled before the ticker starts.
abbrev router_life : List Event
router_life =
    registered 7 ∷ wrote 7 (11 ∷ 12 ∷ 13 ∷ 14 ∷ []) ∷ start_called ∷ ticked never_reuse ∷ []

abbrev ticked_life : Life
ticked_life = record { router = after_tick; ticking = true; stopped = false; goroutines = 1 }

run-ticked_life :
    run (step 4) (unborn never_panics crowded.manager new_pool) router_life ≡ at ticked_life
unfolding run step unborn Loop.new_router Loop.start Loop.on_buffer Loop.after_tick lookup
    multi_terminal.Base.Maps.store multi_terminal.Ring.write multi_terminal.Ring.new_ring
    multi_terminal.Router.register_buffer multi_terminal.Ring.fill
run-ticked_life =
    ap
      (λ o.
        bind
          (Loop.after_tick
            (record { router = crowded; ticking = true; stopped = false; goroutines = 1 }) o)
          (λ l. at l))
      (aggregate_delivers_nothing 4 never_reuse crowded crowded-IsRouter (λ k. refl)).1

router_stays_silent_example : All IsWarning after_tick.sent
router_stays_silent_example =
    router_stays_silent 4 never_panics crowded.manager new_pool router_life ticked_life
      new_pool-IsPool (omega arith, (tt, (tt, (tt, tt)))) run-ticked_life
