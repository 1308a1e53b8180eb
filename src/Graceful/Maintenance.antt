-- ===== src/Graceful/Maintenance.antt =====
-- The maintenance message (server/graceful.go, `MaintenanceFrame` and `BroadcastMaintenance`).
use multi_terminal.Base.{
  ℕ, ◌+◌, ◌≤◌, ◌<◌, ◌^◌, replicate, ◌≡◌, refl, ap, ◌∙◌, List, [], ◌∷◌, length, take, drop, arith,
  All, le→ltb, some,
}
use multi_terminal.Base.Maps.{lookup}
use multi_terminal.Base.Slices.{Bytes}
use multi_terminal.Base.Outcome.{Outcome, ret, panic, ◌>>=◌}
use multi_terminal.Codec.{
  SessionBlock, Frame, ok, deserialize, serialize, write_blocks, total_len, uint16, put_byte,
  put_uint32, put_uint16, put_bytes,
}
use multi_terminal.Codec.Grammar.{encode_block, decode}
use multi_terminal.Codec.Write.{serialize_one}
use multi_terminal.Codec.RoundTrip.{be32_value, be16_value}
use multi_terminal.Codec.Read.{deserialize-parse, answer}
use multi_terminal.Server.{Hub}
use multi_terminal.Server.Messages.{
  IsOpen, delivered, all_with, lookup-all_with, hub_broadcast_open,
}
use multi_terminal.Graceful.{
  MaintenanceBlock, MaintenanceFrame, maintenance_len, write_maintenance, serialize_maintenance,
  maintenance_text, maintenance_type, maintenance_frame, broadcast_maintenance,
}

-- The block and the frame of the codec with the same fields.
abbrev pub block_of : MaintenanceBlock → SessionBlock
block_of s = record { session_id = s.session_id; length = s.length; bytes = s.bytes }

abbrev pub blocks_of : List MaintenanceBlock → List SessionBlock
blocks_of [] = []
blocks_of (s ∷ ss) = block_of s ∷ blocks_of ss

abbrev pub frame_of : MaintenanceFrame → Frame
frame_of f = record {
  frame_type = f.frame_type;
  session_count = f.session_count;
  sessions = blocks_of f.sessions;
}

maintenance_len-total_len :
    (total : ℕ) (ss : List MaintenanceBlock)
    → maintenance_len total ss ≡ total_len total (blocks_of ss)
unfolding maintenance_len total_len
maintenance_len-total_len total [] = refl
maintenance_len-total_len total (s ∷ ss) =
    maintenance_len-total_len (total + (4 + 2 + length s.bytes)) ss

bind_ext :
    (o : Outcome Bytes) (f g : Bytes → Outcome Bytes)
    → ((b : Bytes) → f b ≡ g b)
    → (o >>= f) ≡ (o >>= g)
bind_ext (ret b) f g h = h b
bind_ext panic f g h = refl

write_maintenance-write_blocks :
    (ss : List MaintenanceBlock) (offset : ℕ) (buf : Bytes)
    → write_maintenance ss offset buf ≡ write_blocks (blocks_of ss) offset buf
unfolding write_maintenance write_blocks
write_maintenance-write_blocks [] offset buf = refl
write_maintenance-write_blocks (s ∷ ss) offset buf =
    bind_ext (put_uint32 buf offset s.session_id) _ _ (λ buf₁.
      bind_ext (put_uint16 buf₁ (offset + 4) s.length) _ _ (λ buf₂.
        bind_ext (put_bytes buf₂ (offset + 4 + 2) s.bytes) _ _
          (λ buf₃. write_maintenance-write_blocks ss (offset + 4 + 2 + s.length) buf₃)))

-- `MaintenanceFrame.Serialize`, which repeats `Frame.Serialize`, writes the same bytes or panics with
-- it, for every frame.
pub serialize_maintenance-serialize :
    (f : MaintenanceFrame) → serialize_maintenance f ≡ serialize (frame_of f)
unfolding serialize_maintenance serialize
serialize_maintenance-serialize f = rw maintenance_len-total_len (
    bind_ext (put_byte (replicate (total_len 2 (blocks_of f.sessions)) 0) 0 f.frame_type) _ _
      (λ buf₁.
        bind_ext (put_byte buf₁ 1 f.session_count) _ _
          (λ buf₂. write_maintenance-write_blocks f.sessions 2 buf₂)))

-- What a client gets of a message: the text up to its length modulo 2^16.
abbrev pub seen : Bytes → Frame
seen message =
    let text = maintenance_text message in
    let block : SessionBlock = record {
      session_id = 0;
      length = uint16 (length text);
      bytes = take (uint16 (length text)) text;
    } in
    record { frame_type = maintenance_type; session_count = 1; sessions = block ∷ [] }

decode_one :
    (id len : ℕ) (bytes : Bytes)
    → id < 2 ^ 32
    → len < 65536
    → len ≤ length bytes
    → decode 1 (encode_block (record { session_id = id; length = len; bytes = bytes }))
      ≡ some (record { session_id = id; length = len; bytes = take len bytes } ∷ [], drop len bytes)
unfolding decode
decode_one id len bytes small short fits =
    rw (be32_value id small, be16_value len short) (rw (le→ltb _ _ fits) refl)

uint16-le : (n : ℕ) → uint16 n ≤ n
uint16-le n = omega arith

-- What is sent for a message.
abbrev pub maintenance_wire : Bytes → Bytes
maintenance_wire message =
    let text = maintenance_text message in
    let block : SessionBlock = record {
      session_id = 0;
      length = uint16 (length text);
      bytes = text;
    } in
    maintenance_type ∷ 1 ∷ encode_block block

serialize_maintenance_frame :
    (message : Bytes)
    → serialize_maintenance (maintenance_frame message) ≡ ret (maintenance_wire message)
serialize_maintenance_frame message =
    serialize_maintenance-serialize (maintenance_frame message)
    ∙ unfold maintenance_frame in
      serialize_one maintenance_type 1 (record {
        session_id = 0;
        length = uint16 (length (maintenance_text message));
        bytes = maintenance_text message;
      })

deserialize-maintenance_wire :
    (message : Bytes) → deserialize (maintenance_wire message) ≡ ret (ok (seen message))
deserialize-maintenance_wire message =
    deserialize-parse (maintenance_wire message)
    ∙ ap (λ o. ret (answer maintenance_type 1 o))
        (decode_one 0 (uint16 (length (maintenance_text message))) (maintenance_text message)
          (omega arith) (omega arith) (uint16-le (length (maintenance_text message))))

pub broadcast_maintenance_open :
    (h : Hub) (message : Bytes)
    → All IsOpen h.conns
    → broadcast_maintenance h message
      ≡ ret (record h { conns = all_with (maintenance_wire message) h.conns })
unfolding broadcast_maintenance
broadcast_maintenance_open h message up =
    rw (serialize_maintenance_frame message) (hub_broadcast_open h (maintenance_wire message) up)

-- While no registered connection is closed, a maintenance message reaches, without a panic, every
-- connection that has room, and a client reads it as a frame of type 7. It gets the whole text if that
-- has less than 65536 bytes, and of a longer text only the length modulo 65536.
pub broadcast_maintenance_lem :
    (h : Hub) (message : Bytes) (j : ℕ)
    → All IsOpen h.conns
    → (wire : Bytes) × (after : Hub) × (broadcast_maintenance h message ≡ ret after)
      × (lookup j after.conns ≡ delivered wire (lookup j h.conns))
      × (deserialize wire ≡ ret (ok (seen message)))
broadcast_maintenance_lem h message j up = (
  maintenance_wire message,
  record h { conns = all_with (maintenance_wire message) h.conns },
  broadcast_maintenance_open h message up,
  lookup-all_with (maintenance_wire message) j h.conns,
  deserialize-maintenance_wire message,
)
