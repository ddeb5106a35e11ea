-- ===== src/Teleoperation/Supervision.antt =====
-- `ArmSafetySupervisor` of src/teleoperation/supervision.py. What numpy computes from poses and joint
-- targets is a parameter, `Measures`; the comparisons with the limits are the code's.
pub mod Latch
use embodied_hand_lab.Prelude.{
  ℕ, ◌+◌, leb, Bool, true, false, not, ◌||◌, Option, none, some, List, [], ◌∷◌, Result, ok, err,
  if◌then◌else◌, String,
}
use embodied_hand_lab.Prelude.Int.{ℤ, pos, ltbℤ, pos_part, neg_part}
use embodied_hand_lab.Lifecycle.Stale.{SafetyAction, hold, allow, controlled_stop, abort}
use embodied_hand_lab.Float.{Float, float_le, float_lt, zero_float}

pub record SafetyState : Type 0 where
  pub action : SafetyAction
  pub monotonic_ns : ℤ
  pub reason : String
  pub fault_latched : Bool

-- The ValueError of `SafetyState`, and the RuntimeError of `reset_fault`.
pub data Error : Type 0 where
  negative_time unsafe_reset : Error

-- The arithmetic on a pose target: the distances from the start pose, the half extents with their
-- tolerance, the angle from the start pose, and its maximum with the tolerance. On a joint target: the
-- positions, the limits inside the margin, the largest speed, acceleration and jerk, and their limits
-- with the tolerances.
pub record Measures (P J : Type 0) : Type 0 where
  pub delta : P → List Float
  pub extent : List Float
  pub angle : P → Float
  pub maximum_angle : Float
  pub position : J → List Float
  pub lower : List Float
  pub upper : List Float
  pub speed : J → Float
  pub maximum_speed : Float
  pub acceleration : J → Float
  pub maximum_acceleration : Float
  pub jerk : J → J → Float → Float
  pub maximum_jerk : Float

pub record ArmSafetySupervisor : Type 0 where
  pub maximum_session_ns : ℤ
  pub started_ns : Option ℤ
  pub fault_latched : Bool

unfoldable pub start : ArmSafetySupervisor → ℤ → ArmSafetySupervisor
start s now_ns = record s { started_ns = some now_ns }

unfoldable pub stop : ArmSafetySupervisor → ArmSafetySupervisor
stop s = record s { started_ns = none }

-- `np.any(a > b)` and `np.any(a < b)`, of arrays of one size
unfoldable pub any_above : List Float → List Float → Bool
any_above (x ∷ xs) (y ∷ ys) = float_lt y x || any_above xs ys
any_above _ _ = false

unfoldable pub any_below : List Float → List Float → Bool
any_below (x ∷ xs) (y ∷ ys) = float_lt x y || any_below xs ys
any_below _ _ = false

abbrev pub is_abort : SafetyAction → Bool
is_abort abort = true
is_abort _ = false

-- What an evaluation leaves and returns.
abbrev pub Outcome : Type 0
Outcome = ArmSafetySupervisor × Result Error SafetyState

-- `_decision`
unfoldable pub decision : ArmSafetySupervisor → SafetyAction → ℤ → String → Outcome
decision s action now_ns reason =
    let latched = s.fault_latched || is_abort action in
    (
      record s { fault_latched = latched },
      if ltbℤ now_ns (pos 0)
          then err negative_time
          else ok (record {
            action = action;
            monotonic_ns = now_ns;
            reason = reason;
            fault_latched = latched;
          }),
    )

-- `now_ns - started_ns >= maximum_session_ns`
abbrev pub session_over : ℤ → ℤ → ℤ → Bool
session_over now_ns started_ns maximum =
    leb (pos_part maximum + (pos_part started_ns + neg_part now_ns))
      (neg_part maximum + (neg_part started_ns + pos_part now_ns))

module _ {P J : Type 0} (measures : Measures P J) where
  open measures use {
    delta, extent, angle, maximum_angle, position, lower, upper, speed, maximum_speed, acceleration,
    maximum_acceleration, jerk, maximum_jerk,
  }

  -- The part of `evaluate_cartesian` behind the tests of the session.
  unfoldable pub evaluate_pose : ArmSafetySupervisor → P → ℤ → Outcome
  evaluate_pose s target now_ns =
      if any_above (delta target) extent
      then decision s abort now_ns "absolute_workspace_envelope"
      else if float_lt maximum_angle (angle target)
      then decision s abort now_ns "absolute_orientation_envelope"
      else decision s allow now_ns "cartesian_target_safe"

  -- The part behind the test of the latch, for the start of the session.
  unfoldable pub evaluate_session : ArmSafetySupervisor → Option ℤ → P → ℤ → Outcome
  evaluate_session s none target now_ns = decision s hold now_ns "session_not_started"
  evaluate_session s (some started_ns) target now_ns =
      if session_over now_ns started_ns s.maximum_session_ns
      then decision s controlled_stop now_ns "maximum_session_duration"
      else evaluate_pose s target now_ns

  unfoldable pub evaluate_cartesian : ArmSafetySupervisor → P → ℤ → Outcome
  evaluate_cartesian s target now_ns =
      if s.fault_latched
      then decision s abort now_ns "fault_latched"
      else evaluate_session s s.started_ns target now_ns

  -- The test of the jerk against the previous target, if there is one.
  unfoldable pub evaluate_jerk : ArmSafetySupervisor → J → Option J → Option Float → ℤ → Outcome
  evaluate_jerk s target none dt_s now_ns = decision s allow now_ns "joint_target_safe"
  evaluate_jerk s target (some previous) none now_ns =
      decision s abort now_ns "invalid_joint_target_dt"
  evaluate_jerk s target (some previous) (some dt) now_ns =
      if float_le dt zero_float
      then decision s abort now_ns "invalid_joint_target_dt"
      else if float_lt maximum_jerk (jerk target previous dt)
      then decision s abort now_ns "joint_jerk_limit"
      else decision s allow now_ns "joint_target_safe"

  unfoldable pub evaluate_joint_target :
      ArmSafetySupervisor → J → Option J → Option Float → ℤ → Outcome
  evaluate_joint_target s target previous dt_s now_ns =
      if any_below (position target) lower || any_above (position target) upper
      then decision s abort now_ns "joint_soft_limit"
      else if float_lt maximum_speed (speed target)
      then decision s abort now_ns "joint_velocity_limit"
      else if float_lt maximum_acceleration (acceleration target)
      then decision s abort now_ns "joint_acceleration_limit"
      else evaluate_jerk s target previous dt_s now_ns

unfoldable pub reset_fault :
    ArmSafetySupervisor → Bool → ArmSafetySupervisor × Result Error (Unit {0})
reset_fault s safe =
    if not safe then (s, err unsafe_reset) else (record s { fault_latched = false }, ok tt)
