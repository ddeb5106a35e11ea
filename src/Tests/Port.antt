-- ===== src/Tests/Port.antt =====
-- Transactions of src/rh56_driver/serial_backend.py with concrete bytes.
use embodied_hand_lab.Prelude.{
  ℕ, ◌≡◌, refl, true, none, some, List, [], ◌∷◌, arith, ok, first, concat,
}
use embodied_hand_lab.Prelude.Int.{ℤ, pos}
use embodied_hand_lab.HandSchema.{rh56_protocol_order}
use embodied_hand_lab.Serial.Words.{u16_list_to_bytes}
use embodied_hand_lab.Serial.Frames.{build_frame, split, split_frames, validate_checksum}
use embodied_hand_lab.Serial.Frames.Splitting.{stream, split_frames-stream}
use embodied_hand_lab.Serial.Registers.{
  Backend, read_register, write_register, collect, is_acknowledgement,
}
use embodied_hand_lab.Serial.Registers.Reads.{read_reply}
use embodied_hand_lab.Serial.Registers.Exchange.{read_register_returns, read_register_sound}
use embodied_hand_lab.Serial.Registers.Writes.{acknowledgement, write_register_sound}

abbrev pub backend : Backend
backend = record {
  hand_id = 1;
  protocol_order = rh56_protocol_order;
  connected = true;
  sent = [];
  register_write_count = 0;
  timeout_count = 0;
  checksum_failure_count = 0;
  protocol_error_count = 0;
  last_failure_context = none;
}

-- The frame that clears the error register.
clear_error_frame :
    build_frame (1 ∷ 4 ∷ 0x12 ∷ 0xEC ∷ 0x03 ∷ 1 ∷ [])
    ≡ ok (0xEB ∷ 0x90 ∷ 1 ∷ 4 ∷ 0x12 ∷ 0xEC ∷ 0x03 ∷ 1 ∷ 7 ∷ [])
unfolding build_frame
clear_error_frame = refl

abbrev angles : List ℤ
angles = pos 0 ∷ pos 1000 ∷ pos 500 ∷ pos 256 ∷ pos 255 ∷ pos 42 ∷ []

abbrev reply : List ℕ
reply = read_reply 1 1546 (u16_list_to_bytes angles)

-- Noise and the first byte, and then the rest of the reply.
abbrev chunks : List (List ℕ)
chunks =
    (0 ∷ 7 ∷ 0x90 ∷ [])
    ∷ []
    ∷ (0xEB ∷ 1 ∷ 15 ∷ 0x11 ∷ 10 ∷ 6 ∷ 0 ∷ 0 ∷ 232 ∷ 3 ∷ 244 ∷ 1 ∷ 0 ∷ 1 ∷ 255 ∷ 0 ∷ 42 ∷ 0 ∷ 59
        ∷ [])
    ∷ []

read_register_returns_example :
    (read_register backend 1546 12 chunks).1 ≡ ok (u16_list_to_bytes angles)
unfolding u16_list_to_bytes
read_register_returns_example =
    (read_register_returns backend 1546 (u16_list_to_bytes angles) (0 ∷ 7 ∷ []) [] chunks refl
      (omega arith) (omega arith) (omega arith) refl).0

read_register_sound_example : first (split_frames (concat chunks)) ≡ some reply
unfolding u16_list_to_bytes
read_register_sound_example =
    (read_register_sound backend 1546 12 chunks (u16_list_to_bytes angles)
      read_register_returns_example).1

abbrev ack_chunks : List (List ℕ)
ack_chunks = acknowledgement 1 1004 ∷ []

write_acknowledged : (write_register backend 1004 (1 ∷ []) ack_chunks).1 ≡ ok true
unfolding write_register build_frame collect split_frames split validate_checksum is_acknowledgement
write_acknowledged = refl

write_register_sound_example :
    first (split_frames (concat ack_chunks)) ≡ some (acknowledgement 1 1004)
write_register_sound_example =
    (write_register_sound backend 1004 (1 ∷ []) ack_chunks write_acknowledged).1

split_frames-stream_example :
    split_frames (stream ((0 ∷ [], reply) ∷ ([], reply) ∷ []) (0x90 ∷ []))
    ≡ reply ∷ reply ∷ split_frames (0x90 ∷ [])
unfolding u16_list_to_bytes
split_frames-stream_example = split_frames-stream ((0 ∷ [], reply) ∷ ([], reply) ∷ []) (0x90 ∷ []) (
  (omega arith, record { first = refl; second = refl; complete = refl }),
  ((tt, record { first = refl; second = refl; complete = refl }), tt),
)
