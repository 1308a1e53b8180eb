-- ===== src/Multiexec/Async.antt =====
-- gateway/internal/multiexec/engine.go: the goroutines that `Broadcast` leaves behind.
-- `s, input` hands each goroutine the caller's slice, not a copy of it, so the bytes stand in a memory
-- that the caller can write to. An event is a call, the write of one goroutine, whichever the scheduler
-- picks, or a write of the caller to a slice. `handed` is the log of what the shells were given; a write
-- that fails is only printed.
pub mod Order
pub mod Schedules
use multi_terminal.Base.{
  ℕ, zero, suc, Bool, true, false, Option, none, some, List, [], ◌∷◌, ◌++◌, map, ◌==◌,
  if◌then◌else◌,
}
use multi_terminal.Base.Steps.{Ran, stuck, crashed, at}
use multi_terminal.Base.Slices.{Bytes}
use multi_terminal.Session.{Session, Manager}
use multi_terminal.Multiexec.{broadcast}

-- The contents by address.
abbrev pub Memory : Type 0
Memory = ℕ → Bytes

unfoldable pub overwrite : Memory → ℕ → Bytes → Memory
overwrite memory buffer bytes b = if b == buffer then bytes else memory b

-- A goroutine that was started and has not written.
pub record Goroutine : Type 0 where
  pub session : ℕ
  pub has_stream : Bool
  pub buffer : ℕ

pub record World : Type 0 where
  pub memory : Memory
  pub pending : List Goroutine
  pub handed : List (ℕ × Bytes)

-- The arguments of `Broadcast`, with the sessions as they are then.
pub record Call : Type 0 where
  pub manager : Manager
  pub source : ℕ
  pub targets : List ℕ
  pub buffer : ℕ

pub data Event : Type 0 where
  called : Call → Event
  scheduled : ℕ → Event
  overwritten : ℕ → Bytes → Event

abbrev pub idle : Memory → World
idle memory = record { memory = memory; pending = []; handed = [] }

unfoldable pub goroutine : ℕ → Session → Goroutine
goroutine buffer s = record { session = s.session_id; has_stream = s.has_stream; buffer = buffer }

unfoldable pub started : Call → List Goroutine
started c = map (goroutine c.buffer) (broadcast c.manager c.source c.targets).picked

-- The entry at a position, and the others.
abbrev pub behind :
    Goroutine → Option (Goroutine × List Goroutine) → Option (Goroutine × List Goroutine)
behind x none = none
behind x (some (y, ys)) = some (y, x ∷ ys)

unfoldable pub take_out : ℕ → List Goroutine → Option (Goroutine × List Goroutine)
take_out n [] = none
take_out zero (x ∷ xs) = some (x, xs)
take_out (suc n) (x ∷ xs) = behind x (take_out n xs)

-- `sess.ShellStream.Write(data)`
unfoldable pub delivery : Memory → Goroutine → ℕ × Bytes
delivery memory g = (g.session, memory g.buffer)

-- The write to a stream that was not set is a panic.
unfoldable pub after_write : World → Option (Goroutine × List Goroutine) → Ran World
after_write w none = stuck
after_write w (some (g, rest)) =
    if g.has_stream
    then at (record w { pending = rest; handed = w.handed ++ delivery w.memory g ∷ [] })
    else crashed

unfoldable pub step : World → Event → Ran World
step w (called c) = at (record w { pending = w.pending ++ started c })
step w (scheduled n) = after_write w (take_out n w.pending)
step w (overwritten buffer bytes) = at (record w { memory = overwrite w.memory buffer bytes })
