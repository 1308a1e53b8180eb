-- ===== src/Router/Loop.antt =====
-- gateway/internal/router/router.go: the life of a router, `NewRouter`, `Start`, `Stop` and the goroutine
-- of `run`, among the calls of others.
-- An event is what one goroutine does at one moment. The shells' readers write into the buffers, and the
-- manager's sessions change in any way between two events. `ticking` is whether `Start` has set the
-- ticker: `Stop` on a nil ticker is a panic, and so is a second `close`.
pub mod Silence
use multi_terminal.Base.{
  ℕ, ◌+◌, ◌-◌, Bool, true, false, List, [], ◌∷◌, Option, none, some, ltb, ◌==◌, if◌then◌else◌, not,
}
use multi_terminal.Base.Maps.{lookup, store}
use multi_terminal.Base.Slices.{Bytes}
use multi_terminal.Base.Outcome.{Outcome, ret, panic}
use multi_terminal.Base.Steps.{Ran, stuck, crashed, at}
use multi_terminal.Session.{Manager}
use multi_terminal.Pool.{Pool}
use multi_terminal.Ring.{RingBuffer, write, close}
use multi_terminal.Router.{Router, register_buffer, unregister_buffer, aggregate}

-- The hub is what its calls do (`hub_panics`).
unfoldable pub new_router : (ℕ → Bool) → Manager → Pool → Router
new_router hub_panics manager pool = record {
  buffers = [];
  manager = manager;
  pool = pool;
  sent = [];
  hub_panics = hub_panics;
}

pub record Life : Type 0 where
  pub router : Router
  pub ticking : Bool
  pub stopped : Bool
  pub goroutines : ℕ

pub data Event : Type 0 where
  start_called stop_called returned : Event
  ticked : (ℕ → Bool) → Event
  registered unregistered closed : ℕ → Event
  wrote : ℕ → Bytes → Event
  sessions_changed : Manager → Event

unfoldable pub unborn : (ℕ → Bool) → Manager → Pool → Life
unborn hub_panics manager pool = record {
  router = new_router hub_panics manager pool;
  ticking = false;
  stopped = false;
  goroutines = 0;
}

unfoldable pub start : Life → Life
start l = record l { ticking = true; goroutines = l.goroutines + 1 }

unfoldable pub stop : Life → Ran Life
stop l =
    if not l.ticking
    then crashed
    else if l.stopped
    then crashed
    else at (record l { stopped = true })

-- The tick of `run`.
unfoldable pub after_tick : Life → Outcome Router → Ran Life
after_tick l panic = crashed
after_tick l (ret r) = at (record l { router = r })

-- What someone does to the buffer under an id.
unfoldable pub on_buffer : Life → ℕ → (RingBuffer → RingBuffer) → Option RingBuffer → Ran Life
on_buffer l id f none = stuck
on_buffer l id f (some rb) =
    at (record l { router = record l.router { buffers = store id (f rb) l.router.buffers } })

module _ (size : ℕ) where
  unfoldable pub step : Life → Event → Ran Life
  step l start_called = at (start l)
  step l stop_called = stop l
  step l (ticked reuse) =
      if ltb 0 l.goroutines then after_tick l (aggregate size reuse l.router) else stuck
  step l returned =
      if ltb 0 l.goroutines
      then if l.stopped then at (record l { goroutines = l.goroutines - 1 }) else stuck
      else stuck
  step l (registered id) = at (record l { router = register_buffer size l.router id })
  step l (unregistered id) = at (record l { router = unregister_buffer l.router id })
  step l (wrote id bytes) =
      on_buffer l id (λ rb. (write size rb bytes).ring) (lookup id l.router.buffers)
  step l (closed id) = on_buffer l id (close size) (lookup id l.router.buffers)
  step l (sessions_changed manager) =
      at (record l { router = record l.router { manager = manager } })
