-- ===== src/Graceful/Handover.antt =====
-- What is saved for the new process (server/graceful.go).
use multi_terminal.Base.{
  ℕ, ◌≡◌, refl, sym, ap, ◌∙◌, Bool, true, Option, none, some, List, [], ◌∷◌, if◌then◌else◌, All,
  arith, map,
}
use multi_terminal.Base.Slices.{Bytes}
use multi_terminal.Base.Outcome.{Outcome, ret}
use multi_terminal.Server.{Conn, Hub}
use multi_terminal.Graceful.{
  SessionMeta, GracefulState, Listener, GracefulManager, metas, prepare_for_graceful_shutdown,
  restart_message, closed_listener, start_handoff_listener, Handled, save_state, handle_usr2_signal,
}
use multi_terminal.Server.Messages.{IsOpen, all_with}
use multi_terminal.Graceful.Maintenance.{maintenance_wire, broadcast_maintenance_open}
use text.Mathlib.Text.{◌==◌ as str_eq}

metas-all_with :
    (message : Bytes) (conns : List (ℕ × Conn)) → metas (all_with message conns) ≡ metas conns
unfolding metas
metas-all_with message [] = refl
metas-all_with message ((id, c) ∷ conns) = ground (arith, metas-all_with message conns)

prepare-all_with :
    (gm : GracefulManager) (h : Hub) (message : Bytes)
    → prepare_for_graceful_shutdown gm (record h { conns = all_with message h.conns })
      ≡ prepare_for_graceful_shutdown gm h
unfolding prepare_for_graceful_shutdown
prepare-all_with gm h message =
    ap (λ l. let st : GracefulState = record { sessions = l; version = gm.version } in st)
      (metas-all_with message h.conns)

-- The state file, by what json.Marshal gives.
abbrev pub saved_file : Bool → Option Bytes → Option Bytes
saved_file writes none = none
saved_file writes (some json) = if writes then some json else none

-- The listener afterwards, by the file and whether the manager has a socket.
abbrev pub next_listener : GracefulManager → Bool → Option Bytes → Option Listener
next_listener gm listens none = gm.listener
next_listener gm listens (some json) =
    if str_eq gm.socket_path ""
    then gm.listener
    else if listens
    then some (record { listening = true })
    else closed_listener gm.listener

save_state_lem :
    (gm : GracefulManager) (h : Hub) (json : Option Bytes) (writes listens : Bool)
    → let after = save_state gm h json writes listens in
      (after.hub ≡ h)
      × (after.manager.state ≡ gm.state)
      × (after.file ≡ saved_file writes json)
      × (after.manager.listener ≡ next_listener gm listens (saved_file writes json))
unfolding save_state start_handoff_listener
save_state_lem gm h none writes listens = (refl, refl, refl, refl)
save_state_lem gm h (some json) writes listens = ground arith

-- What is left of the connections in the state: nothing but their ids.
pub record Remembers (conns : List (ℕ × Conn)) (records : List SessionMeta) : Type 0 where
  ids : map (λ r. r.session_id) records ≡ map (λ e. e.1.id) conns
  unset : All (λ r. (r.user_id ≡ "") × (r.host_id ≡ "") × (r.cols ≡ 0) × (r.rows ≡ 0)) records

metas-Remembers : (conns : List (ℕ × Conn)) → Remembers conns (metas conns)
unfolding metas
metas-Remembers [] = record { ids = refl; unset = tt }
metas-Remembers ((key, c) ∷ conns) =
    let rest = metas-Remembers conns in
    record { ids = ap (λ l. c.id ∷ l) rest.ids; unset = ((refl, refl, refl, refl), rest.unset) }

-- While no registered connection is closed, the signal is handled without a panic, on every outcome of
-- the encoding, the write and the listen: the state that is kept lists the ids of the connections that
-- were registered before, in their order, with the manager's version and all other fields of a session
-- zero or empty; the file is written exactly if the state is encoded and the write succeeds; and only
-- then, and with a socket path, the listener is replaced, or left closed if the listen fails. Every
-- connection was offered the message.
pub handle_usr2_signal_lem :
    (marshal : GracefulState → Option Bytes) (gm : GracefulManager) (h : Hub)
    (writes listens : Bool)
    → All IsOpen h.conns
    → (state : GracefulState) × (after : Handled) × (handle_usr2_signal marshal gm h writes listens
        ≡ ret after)
      × (after.hub.conns ≡ all_with (maintenance_wire restart_message) h.conns)
      × (after.manager.state ≡ some state)
      × Remembers h.conns state.sessions
      × (state.version ≡ gm.version)
      × (after.file ≡ saved_file writes (marshal state))
      × (after.manager.listener ≡ next_listener gm listens after.file)
unfolding handle_usr2_signal prepare_for_graceful_shutdown
handle_usr2_signal_lem marshal gm h writes listens up =
    let parts =
      save_state_lem (record gm { state = some state }) told (marshal state) writes listens in
    (
      state,
      save_state (record gm { state = some state }) told (marshal state) writes listens,
      rw (broadcast_maintenance_open h restart_message up) (ap saved same),
      ap (λ k. k.conns) parts.0,
      parts.1,
      metas-Remembers h.conns,
      refl,
      parts.2,
      parts.3 ∙ ap (next_listener gm listens) (sym parts.2),
    )
  where
    told : Hub
    told = record h { conns = all_with (maintenance_wire restart_message) h.conns }

    state : GracefulState
    state = prepare_for_graceful_shutdown gm h

    saved : GracefulState → Outcome Handled
    saved st = ret (save_state (record gm { state = some st }) told (marshal st) writes listens)

    same : prepare_for_graceful_shutdown gm told ≡ state
    same = prepare-all_with gm h (maintenance_wire restart_message)
