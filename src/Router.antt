-- ===== src/Router.antt =====
-- gateway/internal/router/router.go: what one tick of the router does.
-- The hub is the list of the messages that were broadcast, the latest last, with `hub_panics`: whether at
-- the moment of the k-th of them a registered connection's channel is closed, so that `Hub.Broadcast`
-- panics (`Server`). Other goroutines register and remove connections, so this may change in any way. `sync.Map.Range` walks the
-- registered buffers in the order of the list, which is any order; the map holds pointers, so what a
-- method does to a buffer or a session is stored back under its id. `reuse` is the choice of the
-- sync.Pool for each session's read. `size` is BufferSize, as in `Ring`.
pub mod Backpressure
pub mod Walk
pub mod Tick
pub mod Loop
mod Tests
use Prim.Native.String.{String}
use multi_terminal.Base.{
  ℕ, zero, suc, ◌+◌, ◌/◌, ◌%◌, Bool, true, false, ◌&&◌, not, List, [], ◌∷◌, ◌++◌, Option, none,
  some, ltb, if◌then◌else◌, length,
}
use multi_terminal.Base.Maps.{store, delete}
use multi_terminal.Base.Slices.{Bytes, codes}
use multi_terminal.Base.Outcome.{Outcome, ret, panic, ◌>>=◌}
use multi_terminal.Codec.{SessionBlock, Frame, frame_type_terminal_output, uint8, uint16, serialize}
use multi_terminal.Session.{Session, Manager, set_slow, put_back}
use multi_terminal.Session
use multi_terminal.Pool.{Pool}
use multi_terminal.Pool
use multi_terminal.Ring.{RingBuffer, new_ring, try_read, is_high, is_low}

pub record Router : Type 0 where
  pub buffers : List (ℕ × RingBuffer)
  pub manager : Manager
  pub pool : Pool
  pub sent : List Bytes
  pub hub_panics : ℕ → Bool

-- `%d` of a number below 10 ^ digits
decimal : ℕ → ℕ → Bytes
decimal zero n = []
decimal (suc digits) n =
    let front = decimal digits (n / 10) in
    if ltb n 10 then (48 + n) ∷ [] else front ++ (48 + n % 10) ∷ []

-- A uint32 has at most ten digits.
abbrev pub uint32_digits : ℕ
uint32_digits = 10

-- `%v` of a bool
bool_text : Bool → Bytes
bool_text true = codes "true"
bool_text false = codes "false"

pub slow_text : ℕ → Bool → Bytes
slow_text id slow =
    codes "{\"type\":\"slow\",\"sessionId\":"
    ++ (decimal uint32_digits id ++ (codes ",\"isSlow\":" ++ (bool_text slow ++ codes "}")))

abbrev pub slow_warning_type : ℕ
slow_warning_type = 0x06

-- The frame that `sendSlowWarning` sends.
unfoldable pub slow_warning : ℕ → Bool → Frame
slow_warning id slow =
    let text = slow_text id slow in
    let block : SessionBlock = record {
      session_id = id;
      length = uint16 (length text);
      bytes = text;
    } in
    record { frame_type = slow_warning_type; session_count = 1; sessions = block ∷ [] }

-- `hub.Broadcast`
unfoldable pub broadcast : Router → Bytes → Outcome Router
broadcast r message =
    if r.hub_panics (length r.sent) then panic else ret (record r { sent = r.sent ++ message ∷ [] })

unfoldable pub send_slow_warning : Router → ℕ → Bool → Outcome Router
send_slow_warning r id slow = do message ← serialize (slow_warning id slow); broadcast r message

unfoldable pub unregister_buffer : Router → ℕ → Router
unregister_buffer r id = record r { buffers = delete id r.buffers }

-- The state of `aggregate` while it walks the buffers: the router and the frame under way.
abbrev pub Walk : Type 0
Walk = Router × Frame

-- The bytes that were read become a block of the frame; `n` counts them.
unfoldable pub add_block : Frame → ℕ → ℕ → Bytes → Frame
add_block frame id n got =
    if ltb 0 n
    then record frame {
      sessions = frame.sessions ++ record { session_id = id; length = uint16 n; bytes = got } ∷ [];
      session_count = uint8 (frame.session_count + 1);
    }
    else frame

abbrev pub empty_frame : Frame
empty_frame = record { frame_type = frame_type_terminal_output; session_count = 0; sessions = [] }

-- The end of `aggregate`.
unfoldable pub send_frame : Walk → Outcome Router
send_frame (r, frame) =
    if ltb 0 frame.session_count
    then (serialize frame >>= λ message. broadcast r message)
    else ret r

module _ (size : ℕ) where
  unfoldable pub register_buffer : Router → ℕ → Router
  register_buffer r id = record r { buffers = store id (new_ring size) r.buffers }

  -- The two tests of the water marks, for a session `s` that was found under `id`.
  unfoldable pub check_marks : Router → ℕ → Session → RingBuffer → Outcome Router
  check_marks r id s rb =
      if is_high size rb && not s.is_slow
      then send_slow_warning (record r { manager = put_back r.manager id (set_slow s true) }) id
          true
      else if is_low size rb && s.is_slow
      then send_slow_warning (record r { manager = put_back r.manager id (set_slow s false) }) id
          false
      else ret r

  -- Reads the buffer into a pooled slice, which goes back when the callback returns. `TryRead` fills
  -- at most `len(data)` bytes.
  unfoldable pub collect : (ℕ → Bool) → Walk → ℕ → RingBuffer → Walk
  collect reuse (r, frame) id rb =
      let (slice, pool) = Pool.get r.pool 4096 (reuse id) in
      let t = try_read size rb slice.len in
      (
        record r { buffers = store id t.ring r.buffers; pool = Pool.put pool slice },
        add_block frame id t.count t.got,
      )

  -- `GetSlow` after the tests: a slow session is skipped.
  unfoldable pub collect_unless_slow : (ℕ → Bool) → Walk → ℕ → RingBuffer → Walk
  collect_unless_slow reuse (r, frame) id rb = elim (Session.get r.manager id) [
    | none ↦ (r, frame)
    | some s ↦ if s.is_slow then (r, frame) else collect reuse (r, frame) id rb
  ]

  -- The callback of `Range`.
  unfoldable pub visit : (ℕ → Bool) → Walk → ℕ × RingBuffer → Outcome Walk
  visit reuse (r, frame) (id, rb) = elim (Session.get r.manager id) [
    | none ↦ ret (r, frame)
    | some s ↦ check_marks r id s rb >>= λ r₁. ret (collect_unless_slow reuse (r₁, frame) id rb)
  ]

  unfoldable pub visit_all : (ℕ → Bool) → Walk → List (ℕ × RingBuffer) → Outcome Walk
  visit_all reuse walk [] = ret walk
  visit_all reuse walk (entry ∷ entries) =
      visit reuse walk entry >>= λ walk₁. visit_all reuse walk₁ entries

  unfoldable pub aggregate : (ℕ → Bool) → Router → Outcome Router
  aggregate reuse r = visit_all reuse (r, empty_frame) r.buffers >>= send_frame
