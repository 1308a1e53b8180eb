-- ===== src/Graceful.antt =====
-- gateway/internal/server/graceful.go: the handover to a new process.
-- The hub is the one of `Server`. What json.Marshal gives for the state is the parameter `marshal`,
-- `none` for an error; whether os.WriteFile and net.Listen succeed are arguments. The goroutine of the
-- listener and `WaitForHandoff` are in `Socket`.
pub mod Maintenance
pub mod Handover
pub mod Socket
mod Tests
use Prim.Native.String.{String}
use text.Mathlib.Text.{◌==◌ as str_eq}
use multi_terminal.Base.{
  ℕ, ◌+◌, Bool, true, false, not, Option, none, some, List, [], ◌∷◌, ◌++◌, if◌then◌else◌, length,
  replicate,
}
use multi_terminal.Base.Slices.{Bytes, codes}
use multi_terminal.Base.Outcome.{Outcome, ret, panic, ◌>>=◌}
use multi_terminal.Codec.{uint16, put_byte, put_uint32, put_uint16, put_bytes}
use multi_terminal.Server.{Conn, Hub, hub_broadcast}

pub record SessionMeta : Type 0 where
  pub session_id : ℕ
  pub user_id : String
  pub host_id : String
  pub cols : ℕ
  pub rows : ℕ

pub record GracefulState : Type 0 where
  pub sessions : List SessionMeta
  pub version : String

-- `listening` is false for a listener that was closed.
pub record Listener : Type 0 where
  pub listening : Bool

pub record GracefulManager : Type 0 where
  pub state : Option GracefulState
  pub listener : Option Listener
  pub socket_path : String
  pub version : String

unfoldable pub new_graceful_manager : String → String → GracefulManager
new_graceful_manager path version = record {
  state = none;
  listener = none;
  socket_path = path;
  version = version;
}

-- The callback of `Range`, which leaves the other fields at their zero values.
abbrev pub meta_of : ℕ × Conn → SessionMeta
meta_of (key, conn) = record {
  session_id = conn.id;
  user_id = "";
  host_id = "";
  cols = 0;
  rows = 0;
}

unfoldable pub metas : List (ℕ × Conn) → List SessionMeta
metas [] = []
metas (entry ∷ conns) = meta_of entry ∷ metas conns

unfoldable pub prepare_for_graceful_shutdown : GracefulManager → Hub → GracefulState
prepare_for_graceful_shutdown gm h = record { sessions = metas h.conns; version = gm.version }

pub record MaintenanceBlock : Type 0 where
  pub session_id : ℕ
  pub length : ℕ
  pub bytes : Bytes

pub record MaintenanceFrame : Type 0 where
  pub frame_type : ℕ
  pub session_count : ℕ
  pub sessions : List MaintenanceBlock

unfoldable pub maintenance_len : ℕ → List MaintenanceBlock → ℕ
maintenance_len total [] = total
maintenance_len total (s ∷ ss) = maintenance_len (total + (4 + 2 + length s.bytes)) ss

unfoldable pub write_maintenance : List MaintenanceBlock → ℕ → Bytes → Outcome Bytes
write_maintenance [] offset buf = ret buf
write_maintenance (s ∷ ss) offset buf = do
  buf₁ ← put_uint32 buf offset s.session_id
  buf₂ ← put_uint16 buf₁ (offset + 4) s.length
  buf₃ ← put_bytes buf₂ (offset + 4 + 2) s.bytes
  write_maintenance ss (offset + 4 + 2 + s.length) buf₃

-- `MaintenanceFrame.Serialize`
unfoldable pub serialize_maintenance : MaintenanceFrame → Outcome Bytes
serialize_maintenance f = do
  let buf = replicate (maintenance_len 2 f.sessions) 0
  buf₁ ← put_byte buf 0 f.frame_type
  buf₂ ← put_byte buf₁ 1 f.session_count
  write_maintenance f.sessions 2 buf₂

-- `fmt.Sprintf` of the message, which is put in as it is.
abbrev pub maintenance_text : Bytes → Bytes
maintenance_text message =
    codes "{\"type\":\"maintenance\",\"message\":\"" ++ (message ++ codes "\"}")

abbrev pub maintenance_type : ℕ
maintenance_type = 0x07

unfoldable pub maintenance_frame : Bytes → MaintenanceFrame
maintenance_frame message =
    let text = maintenance_text message in
    let block : MaintenanceBlock = record {
      session_id = 0;
      length = uint16 (length text);
      bytes = text;
    } in
    record { frame_type = maintenance_type; session_count = 1; sessions = block ∷ [] }

unfoldable pub broadcast_maintenance : Hub → Bytes → Outcome Hub
broadcast_maintenance h message = do
  wire ← serialize_maintenance (maintenance_frame message)
  hub_broadcast h wire

-- `startHandoffListener`: an old listener is closed first, and stays in place if a new one cannot be
-- made.
abbrev pub closed_listener : Option Listener → Option Listener
closed_listener none = none
closed_listener (some l) = some (record l { listening = false })

unfoldable pub start_handoff_listener : GracefulManager → Bool → GracefulManager
start_handoff_listener gm listens =
    if listens
    then record gm { listener = some (record { listening = true }) }
    else record gm { listener = closed_listener gm.listener }

-- The hub and the manager after the signal, and what was written to the state file.
pub record Handled : Type 0 where
  pub hub : Hub
  pub manager : GracefulManager
  pub file : Option Bytes

abbrev pub restart_message : Bytes
restart_message = codes "Server is restarting, please wait..."

-- From the broadcast on; `json` is the encoded state.
unfoldable pub save_state : GracefulManager → Hub → Option Bytes → Bool → Bool → Handled
save_state gm h none writes listens = record { hub = h; manager = gm; file = none }
save_state gm h (some json) writes listens =
    if not writes
    then record { hub = h; manager = gm; file = none }
    else if not (str_eq gm.socket_path "")
    then record { hub = h; manager = start_handoff_listener gm listens; file = some json }
    else record { hub = h; manager = gm; file = some json }

unfoldable pub handle_usr2_signal :
    (GracefulState → Option Bytes) → GracefulManager → Hub → Bool → Bool → Outcome Handled
handle_usr2_signal marshal gm h writes listens = do
  told ← broadcast_maintenance h restart_message
  let state = prepare_for_graceful_shutdown gm told
  ret (save_state (record gm { state = some state }) told (marshal state) writes listens)
