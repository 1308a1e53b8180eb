-- ===== src/Codec/Tests.antt =====
-- The theorems on pkg/codec/frame.go at a frame with two sessions.
use multi_terminal.Base.{◌≡◌, [], ◌∷◌, ◌++◌, refl, All, arith}
use multi_terminal.Base.Slices.{Bytes}
use multi_terminal.Base.Outcome.{ret}
use multi_terminal.Codec.{SessionBlock, Frame, ok, serialize, deserialize}
use multi_terminal.Codec.Grammar.{IsFrame, IsByte}
use multi_terminal.Codec.Read.{parse, deserialize-parse}
use multi_terminal.Codec.RoundTrip.{deserialize-encode, deserialize-serialize}
use multi_terminal.Codec.Sound.{deserialize_sound}

abbrev two_sessions : Frame
two_sessions =
    let first : SessionBlock = record { session_id = 70000; length = 2; bytes = 104 ∷ 105 ∷ [] } in
    let second : SessionBlock = record { session_id = 9; length = 1; bytes = 255 ∷ [] } in
    record { frame_type = 2; session_count = 2; sessions = first ∷ second ∷ [] }

two_sessions-IsFrame : IsFrame two_sessions
two_sessions-IsFrame = record {
  counted = refl;
  blocks = (
    record { sized = refl; id_fits = omega arith; length_fits = omega arith },
    (record { sized = refl; id_fits = omega arith; length_fits = omega arith }, tt),
  );
}

-- The frame on the wire, cut before the last byte.
abbrev cut_short : Bytes
cut_short = 2 ∷ 2 ∷ 0 ∷ 1 ∷ 17 ∷ 112 ∷ 0 ∷ 2 ∷ 104 ∷ 105 ∷ 0 ∷ 0 ∷ 0 ∷ 9 ∷ 0 ∷ 1 ∷ []

cut_short-IsByte : All IsByte (cut_short ++ 255 ∷ 77 ∷ [])
cut_short-IsByte = ground arith

cut_short-front : All IsByte cut_short
cut_short-front = ground arith

deserialize-parse_example : deserialize cut_short ≡ ret (parse cut_short)
deserialize-parse_example = deserialize-parse cut_short

deserialize-serialize_example :
    (wire : Bytes) × (serialize two_sessions ≡ ret wire)
    × (deserialize (wire ++ 7 ∷ []) ≡ ret (ok two_sessions))
deserialize-serialize_example = deserialize-serialize two_sessions (7 ∷ []) two_sessions-IsFrame

deserialize_sound_example :
    IsFrame two_sessions
    × ((wire rest : Bytes) × (serialize two_sessions ≡ ret wire)
        × (cut_short ++ 255 ∷ 77 ∷ [] ≡ wire ++ rest))
deserialize_sound_example =
    deserialize_sound (cut_short ++ 255 ∷ 77 ∷ []) two_sessions cut_short-IsByte
      (deserialize-encode two_sessions (77 ∷ []) two_sessions-IsFrame)
