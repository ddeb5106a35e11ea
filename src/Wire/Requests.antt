-- ===== src/Wire/Requests.antt =====
-- The functions of src/teleoperation/wire.py that make target packets. A double is its 64 bits;
-- `to_double` is `float(n)`, with `none` for its OverflowError.
pub mod Safety
pub mod Delivery
use embodied_hand_lab.Prelude.{
  ℕ, ◌+◌, ◌*◌, ◌/◌, ◌%◌, ◌^◌, List, [], ◌∷◌, ◌++◌, Result, ok, err, if◌then◌else◌, length, all,
  Bool, true, false, not, ◌&&◌, ◌||◌, ◌==◌, Option, none, some, String,
}
use text.Mathlib.Text.{◌==◌ as str_eq}
use embodied_hand_lab.Prelude.Int.{ℤ, pos, lebℤ, ltbℤ}
use embodied_hand_lab.Wire.Packets.{
  TargetKind, FrameId, TargetPacket, heartbeat, hold_current, joint_position, cartesian_pose, stop,
  no_frame, robot_base, startup_tcp_relative,
}

-- The ValueErrors, and the OverflowError of `float`.
pub data Error : Type 0 where
  unsupported_frame bad_sequence bad_timestamps bad_source_timestamp bad_joints not_finite : Error
  overflow : Error

-- `math.isfinite`, of the bits of a double
abbrev pub is_finite_double : ℕ → Bool
is_finite_double b = not (b / 2 ^ 52 % 2048 == 2047)

-- `TargetFlags.ALLOW_MOTION if allow_motion else TargetFlags.NONE`
abbrev pub motion_flag : Bool → ℤ
motion_flag true = pos 1
motion_flag false = pos 0

-- `0 < local_receive_ns <= processing_ns <= dispatch_ns`
abbrev pub ordered : ℤ → ℤ → ℤ → Bool
ordered receive processing dispatch =
    ltbℤ (pos 0) receive && (lebℤ receive processing && lebℤ processing dispatch)

-- The fields of a `PoseTarget` that `pose_target_packet` reads.
pub record PoseTarget : Type 0 where
  pub target_frame_id : String
  pub sequence : ℤ
  pub source_capture_ns : Option ℤ
  pub local_receive_ns : ℤ
  pub processing_ns : Option ℤ
  pub dispatch_ns : Option ℤ
  pub position_m : List ℕ
  pub quaternion_xyzw : List ℕ

-- `ns or 0`
abbrev pub or_zero : Option ℤ → ℤ
or_zero none = pos 0
or_zero (some ns) = ns

-- The lookup of the frame.
unfoldable pub frame_named : String → Option FrameId
frame_named name =
    if str_eq name "robot_base"
    then some robot_base
    else if str_eq name "startup_tcp_relative"
    then some startup_tcp_relative
    else none

unfoldable pub pose_target_packet : PoseTarget → Bool → Result Error TargetPacket
pose_target_packet target allow_motion = elim (frame_named target.target_frame_id) [
  | none ↦ err unsupported_frame
  | some frame ↦ ok (record {
    kind = cartesian_pose;
    flags = motion_flag allow_motion;
    frame_id = frame;
    sequence = target.sequence;
    source_capture_ns = or_zero target.source_capture_ns;
    local_receive_ns = target.local_receive_ns;
    processing_ns = or_zero target.processing_ns;
    dispatch_ns = or_zero target.dispatch_ns;
    payload = target.position_m ++ (target.quaternion_xyzw ++ 0 ∷ []);
  })
]

unfoldable pub joint_position_target_packet :
    ℤ → List ℕ → ℤ → ℤ → ℤ → ℤ → Bool → Result Error TargetPacket
joint_position_target_packet sequence joints receive processing dispatch capture allow_motion =
    if ltbℤ sequence (pos 0)
    then err bad_sequence
    else if not (ordered receive processing dispatch)
    then err bad_timestamps
    else if ltbℤ capture (pos 0)
    then err bad_source_timestamp
    else if not (length joints == 6)
    then err bad_joints
    else if not (all is_finite_double joints)
    then err not_finite
    else ok (record {
      kind = joint_position;
      flags = motion_flag allow_motion;
      frame_id = no_frame;
      sequence = sequence;
      source_capture_ns = capture;
      local_receive_ns = receive;
      processing_ns = processing;
      dispatch_ns = dispatch;
      payload = joints ++ 0 ∷ 0 ∷ [];
    })

-- The payload of a heartbeat.
unfoldable pub heartbeat_payload : Option ℕ → Option ℕ → Option ℕ → Result Error (List ℕ)
heartbeat_payload (some a) (some b) (some c) = ok (a ∷ b ∷ c ∷ 0 ∷ 0 ∷ 0 ∷ 0 ∷ 0 ∷ [])
heartbeat_payload _ _ _ = err overflow

-- The packet with that payload.
unfoldable pub heartbeat_packet :
    ℤ → ℤ → ℤ → ℤ → Bool → Result Error (List ℕ) → Result Error TargetPacket
heartbeat_packet sequence receive processing dispatch allow_motion (err e) = err e
heartbeat_packet sequence receive processing dispatch allow_motion (ok payload) = ok (record {
  kind = heartbeat;
  flags = motion_flag allow_motion;
  frame_id = no_frame;
  sequence = sequence;
  source_capture_ns = pos 0;
  local_receive_ns = receive;
  processing_ns = processing;
  dispatch_ns = dispatch;
  payload = payload;
})

unfoldable pub heartbeat_target_packet :
    (ℤ → Option ℕ) → ℤ → ℤ → ℤ → ℤ → ℤ → ℤ → ℤ → Bool → Result Error TargetPacket
heartbeat_target_packet to_double sequence input_sequence receive processing dispatch last_accepted
      state_code allow_motion =
    if ltbℤ sequence (pos 0) || (ltbℤ input_sequence (pos 0) || ltbℤ last_accepted (pos 0))
    then err bad_sequence
    else if not (ordered receive processing dispatch)
    then err bad_timestamps
    else heartbeat_packet sequence receive processing dispatch allow_motion (
        heartbeat_payload (to_double input_sequence) (to_double last_accepted)
          (to_double state_code))

-- The packet of `stop_target_packet` and of `hold_current_target_packet`.
unfoldable pub standing_packet : TargetKind → ℤ → ℤ → Result Error TargetPacket
standing_packet kind sequence monotonic_ns =
    if ltbℤ sequence (pos 0) || ltbℤ monotonic_ns (pos 0)
    then err bad_sequence
    else ok (record {
      kind = kind;
      flags = pos 0;
      frame_id = no_frame;
      sequence = sequence;
      source_capture_ns = pos 0;
      local_receive_ns = monotonic_ns;
      processing_ns = monotonic_ns;
      dispatch_ns = monotonic_ns;
      payload = 0 ∷ 0 ∷ 0 ∷ 0 ∷ 0 ∷ 0 ∷ 0 ∷ 0 ∷ [];
    })

unfoldable pub stop_target_packet : ℤ → ℤ → Result Error TargetPacket
unfolding standing_packet
stop_target_packet sequence monotonic_ns = standing_packet stop sequence monotonic_ns

unfoldable pub hold_current_target_packet : ℤ → ℤ → Result Error TargetPacket
unfolding standing_packet
hold_current_target_packet sequence monotonic_ns =
    standing_packet hold_current sequence monotonic_ns
