-- ===== src/Engagement.antt =====
-- src/teleop_rearchitecture/engagement.py: the recoverable engagement coordinator. It never looks
-- into a pose, so it stands over any type `P` of poses; `Engagement.Pose` has the poses and
-- `relative_pose`. Sequence numbers and epochs of messages are natural numbers.
pub mod Pose
pub mod Invariant
pub mod Safety
pub mod Epochs
use embodied_hand_lab.Prelude.{
  ℕ, ◌+◌, Bool, true, false, not, ◌&&◌, Option, none, some, List, [], ◌∷◌, leb, ltb, ◌==◌, is_none,
  if◌then◌else◌, length, all,
}
use embodied_hand_lab.Prelude.Int.{ℤ, pos, ltbℤ, lebℤ}
use embodied_hand_lab.Float.{Float, is_finite}

pub data EngagementMode : Type 0 where
  uninitialized disengaged engaging active_tracking : EngagementMode
  hold_rejected controlled_braking stopped_ready hard_stopped : EngagementMode

pub data EngagementResult : Type 0 where
  ok already_applied wait_for_stopped invalid_state : EngagementResult
  invalid_measurement no_input_pose old_epoch old_sequence : EngagementResult

pub record MeasuredJointState : Type 0 where
  pub sequence : ℤ
  pub monotonic_ns : ℤ
  pub position_rad : List Float
  pub velocity_rad_s : List Float
  pub acceleration_rad_s2 : List Float
  pub valid : Bool

-- `MeasuredJointState.is_valid`
unfoldable pub is_valid : MeasuredJointState → Bool
is_valid m =
    m.valid
    && (ltbℤ (pos 0) m.sequence
        && (lebℤ (pos 0) m.monotonic_ns
            && ((ltb 0 (length m.position_rad) && leb (length m.position_rad) 8)
                && ((length m.velocity_rad_s == length m.position_rad)
                    && ((length m.acceleration_rad_s2 == length m.position_rad)
                        && (all is_finite m.position_rad
                            && (all is_finite m.velocity_rad_s
                                && all is_finite m.acceleration_rad_s2)))))))

pub record EngagementCapture (P : Type 0) : Type 0 where
  pub safety_epoch : ℕ
  pub robot_reference : MeasuredJointState
  pub input_reference : P
  pub input_sequence : ℕ
  pub captured_monotonic_ns : ℕ

pub record EngagementCoordinator (P : Type 0) : Type 0 where
  pub mode : EngagementMode
  pub safety_epoch : ℕ
  pub last_target_sequence : ℕ
  pub frozen_source_sequence : ℕ
  pub latest_input_sequence : ℕ
  pub latest_input_pose : Option P
  pub capture : Option (EngagementCapture P)
  pub old_target_rejection_count : ℕ
  pub input_replacement_count : ℕ
  pub history_clear_count : ℕ

unfoldable pub new : (P : Type 0) → EngagementCoordinator P
new P = record {
  mode = uninitialized;
  safety_epoch = 0;
  last_target_sequence = 0;
  frozen_source_sequence = 0;
  latest_input_sequence = 0;
  latest_input_pose = none;
  capture = none;
  old_target_rejection_count = 0;
  input_replacement_count = 0;
  history_clear_count = 0;
}

-- `mode in (ACTIVE_TRACKING, HOLD_REJECTED)`
abbrev pub is_tracking : EngagementMode → Bool
is_tracking active_tracking = true
is_tracking hold_rejected = true
is_tracking _ = false

module _ {P : Type 0} where
  unfoldable pub initialize_disengaged :
      EngagementCoordinator P → MeasuredJointState → EngagementCoordinator P × EngagementResult
  initialize_disengaged c measured = elim c.mode [
    | uninitialized ↦
        if is_valid measured then (record c { mode = disengaged }, ok) else (c, invalid_measurement)
    | _ ↦ (c, invalid_state)
  ]

  unfoldable pub observe_input :
      EngagementCoordinator P → ℕ → P → EngagementCoordinator P × EngagementResult
  observe_input c sequence pose =
      if leb sequence c.latest_input_sequence then (c, old_sequence) else (
        record c {
          input_replacement_count =
              if is_none c.latest_input_pose
              then c.input_replacement_count
              else c.input_replacement_count + 1;
          latest_input_sequence = sequence;
          latest_input_pose = some pose;
        },
        ok,
      )

  -- The part of `begin_engagement` that is reached in DISENGAGED and STOPPED_READY.
  unfoldable pub start_engagement :
      EngagementCoordinator P
      → MeasuredJointState
      → ℕ
      → Option P
      → EngagementCoordinator P × EngagementResult × Option (EngagementCapture P)
  start_engagement c measured now_ns none =
      if is_valid measured then (c, no_input_pose, none) else (c, invalid_measurement, none)
  start_engagement c measured now_ns (some pose) =
      let capture : EngagementCapture P = record {
        safety_epoch = c.safety_epoch + 1;
        robot_reference = measured;
        input_reference = pose;
        input_sequence = c.latest_input_sequence;
        captured_monotonic_ns = now_ns;
      } in
      if is_valid measured
      then (
        record c {
          safety_epoch = c.safety_epoch + 1;
          last_target_sequence = 0;
          frozen_source_sequence = 0;
          history_clear_count = c.history_clear_count + 1;
          capture = some capture;
          mode = engaging;
        },
        ok,
        some capture,
      )
      else (c, invalid_measurement, none)

  unfoldable pub begin_engagement :
      EngagementCoordinator P
      → MeasuredJointState
      → ℕ
      → EngagementCoordinator P × EngagementResult × Option (EngagementCapture P)
  unfolding start_engagement
  begin_engagement c measured now_ns = elim c.mode [
    | controlled_braking ↦ (c, wait_for_stopped, none)
    | engaging ↦ (c, already_applied, c.capture)
    | disengaged ↦ start_engagement c measured now_ns c.latest_input_pose
    | stopped_ready ↦ start_engagement c measured now_ns c.latest_input_pose
    | _ ↦ (c, invalid_state, none)
  ]

  unfoldable pub complete_engagement :
      EngagementCoordinator P → EngagementCoordinator P × EngagementResult
  complete_engagement c = elim c.mode [
    | active_tracking ↦ (c, already_applied)
    | engaging ↦
        if is_none c.capture then (c, invalid_state) else (record c { mode = active_tracking }, ok)
    | _ ↦ (c, invalid_state)
  ]

  unfoldable pub note_target :
      EngagementCoordinator P → ℕ → ℕ → Bool → EngagementCoordinator P × EngagementResult
  note_target c sequence epoch accepted =
      if not (epoch == c.safety_epoch)
      then (record c { old_target_rejection_count = c.old_target_rejection_count + 1 }, old_epoch)
      else if not (is_tracking c.mode)
      then (c, invalid_state)
      else if leb sequence c.last_target_sequence
      then (c, old_sequence)
      else (
        record c {
          last_target_sequence = sequence;
          mode = if accepted then active_tracking else hold_rejected;
        },
        ok,
      )

  unfoldable pub request_release :
      EngagementCoordinator P → EngagementCoordinator P × EngagementResult
  request_release c =
      let released = record c {
        frozen_source_sequence = c.last_target_sequence;
        mode = controlled_braking;
      } in
      elim c.mode [
        | controlled_braking ↦ (c, already_applied)
        | active_tracking ↦ (released, ok)
        | hold_rejected ↦ (released, ok)
        | _ ↦ (c, invalid_state)
      ]

  unfoldable pub braking_complete :
      EngagementCoordinator P → EngagementCoordinator P × EngagementResult
  braking_complete c = elim c.mode [
    | stopped_ready ↦ (c, already_applied)
    | controlled_braking ↦ (record c { mode = stopped_ready }, ok)
    | _ ↦ (c, invalid_state)
  ]

  unfoldable pub hard_stop : EngagementCoordinator P → EngagementCoordinator P
  hard_stop c = record c { mode = hard_stopped }

  unfoldable pub reset_hard_stop :
      EngagementCoordinator P → MeasuredJointState → EngagementCoordinator P × EngagementResult
  reset_hard_stop c measured = elim c.mode [
    | hard_stopped ↦
        if is_valid measured
        then (
          record c {
            capture = none;
            last_target_sequence = 0;
            frozen_source_sequence = 0;
            safety_epoch = c.safety_epoch + 1;
            history_clear_count = c.history_clear_count + 1;
            mode = disengaged;
          },
          ok,
        )
        else (c, invalid_measurement)
    | _ ↦ (c, invalid_state)
  ]

-- A call of a method.
pub data Call (P : Type 0) : Type 0 where
  initialize_call : MeasuredJointState → Call P
  observe_call : ℕ → P → Call P
  begin_call : MeasuredJointState → ℕ → Call P
  complete_call : Call P
  target_call : ℕ → ℕ → Bool → Call P
  release_call : Call P
  stopped_call : Call P
  hard_stop_call : Call P
  reset_call : MeasuredJointState → Call P

module _ {P : Type 0} where
  -- The new coordinator, and the result; `hard_stop` returns nothing and is counted as OK.
  unfoldable pub apply :
      EngagementCoordinator P → Call P → EngagementCoordinator P × EngagementResult
  apply c (initialize_call m) = initialize_disengaged c m
  apply c (observe_call n p) = observe_input c n p
  apply c (begin_call m now_ns) = let t = begin_engagement c m now_ns in (t.0, t.1)
  apply c complete_call = complete_engagement c
  apply c (target_call n epoch accepted) = note_target c n epoch accepted
  apply c release_call = request_release c
  apply c stopped_call = braking_complete c
  apply c hard_stop_call = (hard_stop c, ok)
  apply c (reset_call m) = reset_hard_stop c m

  unfoldable pub run : EngagementCoordinator P → List (Call P) → EngagementCoordinator P
  run c [] = c
  run c (x ∷ xs) = run (apply c x).0 xs
