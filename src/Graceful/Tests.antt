-- ===== src/Graceful/Tests.antt =====
-- The theorems on the handover at a hub with one connection.
use multi_terminal.Base.{◌≡◌, refl, true, false, some, [], ◌∷◌}
use multi_terminal.Base.Slices.{codes}
use multi_terminal.Base.Outcome.{ret}
use multi_terminal.Codec.{serialize}
use multi_terminal.Server.{Conn, Hub}
use multi_terminal.Server.Messages.{all_with}
use multi_terminal.Graceful.{
  GracefulState, GracefulManager, new_graceful_manager, maintenance_frame, restart_message,
  serialize_maintenance, Handled, handle_usr2_signal,
}
use multi_terminal.Graceful.Maintenance.{
  frame_of, maintenance_wire, serialize_maintenance-serialize,
}
use multi_terminal.Graceful.Handover.{Remembers, saved_file, next_listener, handle_usr2_signal_lem}

serialize_maintenance-serialize_example :
    serialize_maintenance (maintenance_frame (codes "bye"))
    ≡ serialize (frame_of (maintenance_frame (codes "bye")))
serialize_maintenance-serialize_example =
    serialize_maintenance-serialize (maintenance_frame (codes "bye"))

abbrev one_message : Conn
one_message = record { id = 1; queue = (65 ∷ []) ∷ []; closed = false }

abbrev one_conn : Hub
one_conn = record { id_gen = 1; conns = (1, one_message) ∷ [] }

abbrev gm : GracefulManager
gm = new_graceful_manager "/tmp/s" "1"

-- The listen fails.
handle_usr2_signal_lem_example :
    (state : GracefulState) × (after : Handled) × (handle_usr2_signal
        (λ st. some (123 ∷ []))
        gm
        one_conn
        true
        false
      ≡ ret after)
    × (after.hub.conns ≡ all_with (maintenance_wire restart_message) one_conn.conns)
    × (after.manager.state ≡ some state)
    × Remembers one_conn.conns state.sessions
    × (state.version ≡ gm.version)
    × (after.file ≡ saved_file true (some (123 ∷ [])))
    × (after.manager.listener ≡ next_listener gm false after.file)
handle_usr2_signal_lem_example =
    handle_usr2_signal_lem (λ st. some (123 ∷ [])) gm one_conn true false (refl, tt)
