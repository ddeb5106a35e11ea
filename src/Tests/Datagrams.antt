-- ===== src/Tests/Datagrams.antt =====
-- Datagrams of src/teleoperation/wire.py, with the sum of the bytes for a checksum.
use embodied_hand_lab.Prelude.{
  ℕ, ◌+◌, ◌≡◌, refl, true, none, some, List, [], ◌∷◌, ◌++◌, arith, ok, length, All, ◌⊎◌,
}
use mathlib.Core.Option
use embodied_hand_lab.Prelude.Int.{pos}
use embodied_hand_lab.Wire.Layout.{bytes_of, number_of, unpack, pack, pack_field}
use embodied_hand_lab.Wire.Packets
use embodied_hand_lab.Wire.Packets.{TargetPacket, encode_target, decode_target, target_values}
use embodied_hand_lab.Wire.Packets.RoundTrip.{decode_target_iff}
use embodied_hand_lab.Wire.Requests
use embodied_hand_lab.Lifecycle
use embodied_hand_lab.Wire.Status.{
  WorkerStatusPacket, latest, drain, decode_status, status_of, status_acknowledgement,
}
use embodied_hand_lab.Wire.Status.Latest.{Last, IsStatus, latest_lem}
use embodied_hand_lab.Wire.Requests.Safety
use embodied_hand_lab.Wire.Requests.Safety.{make}
use embodied_hand_lab.Wire.Requests.Delivery.{InWords, made_packet_lem}

abbrev sum : List ℕ → ℕ
sum [] = 0
sum (b ∷ bs) = b + sum bs

abbrev zeros : List ℕ
zeros = 0 ∷ 0 ∷ 0 ∷ 0 ∷ 0 ∷ 0 ∷ 0 ∷ 0 ∷ []

abbrev stop_packet : TargetPacket
stop_packet = record {
  kind = Packets.stop;
  flags = pos 0;
  frame_id = Packets.no_frame;
  sequence = pos 3;
  source_capture_ns = pos 0;
  local_receive_ns = pos 7;
  processing_ns = pos 7;
  dispatch_ns = pos 7;
  payload = zeros;
}

abbrev word : ℕ → List ℕ
word n = n ∷ 0 ∷ 0 ∷ 0 ∷ 0 ∷ 0 ∷ 0 ∷ 0 ∷ []

abbrev datagram : List ℕ
datagram =
    (0x54 ∷ 0x47 ∷ 0x54 ∷ 0x4A ∷ 1 ∷ 0 ∷ 4 ∷ 0 ∷ [])
    ++ zeros
    ++ word 3
    ++ word 0
    ++ word 7
    ++ word 7
    ++ word 7
    ++ zeros
    ++ zeros
    ++ zeros
    ++ zeros
    ++ zeros
    ++ zeros
    ++ zeros
    ++ zeros
    ++ 86 ∷ 1 ∷ 0 ∷ 0 ∷ []

decode_target_iff_example : decode_target sum datagram ≡ ok stop_packet
unfolding encode_target target_values pack pack_field bytes_of
decode_target_iff_example = (decode_target_iff sum stop_packet datagram (omega arith)).1 refl

abbrev joint_call : Safety.Request
joint_call =
    Safety.joint_request (pos 9) (0 ∷ 0 ∷ 0 ∷ 0 ∷ 0 ∷ 0x3FF0000000000000 ∷ []) (pos 1) (pos 2)
      (pos 3) (pos 0) true

abbrev joint_packet : TargetPacket
joint_packet = record {
  kind = Packets.joint_position;
  flags = pos 1;
  frame_id = Packets.no_frame;
  sequence = pos 9;
  source_capture_ns = pos 0;
  local_receive_ns = pos 1;
  processing_ns = pos 2;
  dispatch_ns = pos 3;
  payload = 0 ∷ 0 ∷ 0 ∷ 0 ∷ 0 ∷ 0x3FF0000000000000 ∷ 0 ∷ 0 ∷ [];
}

joint_packet-InWords : InWords joint_packet
joint_packet-InWords = record {
  sequence = omega arith;
  source_capture_ns = omega arith;
  local_receive_ns = omega arith;
  processing_ns = omega arith;
  dispatch_ns = omega arith;
  payload = omega arith;
}

made_packet_lem_example :
    (bytes : List ℕ) × (encode_target sum joint_packet ≡ ok bytes)
    × (length bytes ≡ 124)
    × (decode_target sum bytes ≡ ok joint_packet)
unfolding make Requests.joint_position_target_packet
made_packet_lem_example =
    (made_packet_lem sum (λ n. none) joint_call joint_packet refl tt joint_packet-InWords).1

-- A status of the worker, 108 bytes: connected, with an accepted target 3.
abbrev status : List ℕ
status =
    (0x41 ∷ 0x54 ∷ 0x53 ∷ 0x4A ∷ 1 ∷ 0 ∷ 6 ∷ 0 ∷ [])
    ++ (25 ∷ 0 ∷ 0 ∷ 0 ∷ [])
    ++ word 3
    ++ word 1
    ++ word 7
    ++ word 0
    ++ word 7
    ++ zeros
    ++ zeros
    ++ zeros
    ++ zeros
    ++ zeros
    ++ zeros
    ++ (0 ∷ 0 ∷ 0 ∷ 0 ∷ 100 ∷ 1 ∷ 0 ∷ 0 ∷ [])

latest_found :
    Option.map (λ (p : WorkerStatusPacket). p.last_sequence) (latest sum (status ∷ datagram ∷ []))
    ≡ some 3
unfolding latest drain decode_status status_of unpack number_of
latest_found = refl

latest_lem_example :
    ((p : WorkerStatusPacket) × (latest sum (status ∷ datagram ∷ []) ≡ some p)
      × Last sum (status ∷ datagram ∷ []) p)
    ⊎ ((latest sum (status ∷ datagram ∷ []) ≡ none)
        × All (λ d. IsStatus sum d → ⊥) (status ∷ datagram ∷ []))
latest_lem_example = latest_lem sum (status ∷ datagram ∷ [])

acknowledged :
    status_acknowledgement (record {
      state = 6;
      flags = 25;
      last_sequence = 3;
      loop_sequence = 1;
      worker_monotonic_ns = 7;
      command_monotonic_ns = 0;
      observation_monotonic_ns = 7;
      joint_position_rad = [];
      error_code = pos 0;
    })
    ≡ ok (
        some (record {
          sequence = 3;
          accepted = true;
          state = Lifecycle.running;
          received_monotonic_ns = 7;
          robot_command_monotonic_ns = none;
          reason = "accepted";
        }))
unfolding status_acknowledgement
acknowledged = refl
