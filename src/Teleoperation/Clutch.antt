-- ===== src/Teleoperation/Clutch.antt =====
-- `ClutchController` of src/teleoperation/processing/clutch.py, over the mapper of
-- `Teleoperation.Mapper`. A method that mutates the controller returns the new one beside what it
-- returns or raises.
pub mod Safety
use embodied_hand_lab.Prelude.{
  ℕ, Bool, true, false, not, ◌&&◌, ◌||◌, Option, none, some, List, [], ◌∷◌, Result, ok, err,
  if◌then◌else◌,
}
use embodied_hand_lab.Teleoperation.Mapper
use embodied_hand_lab.Teleoperation.Mapper.{
  PoseOps, RelativePoseMapper, fresh_mapper, clear, anchor_operator, anchor_source, map_operator,
  map_source,
}

pub data ClutchState : Type 0 where
  waiting_for_release disengaged active recenter_required stopped fault : ClutchState

-- The fields of the samples that the controller reads.
pub record ArmPoseSample (P : Type 0) : Type 0 where
  pub pose : P
  pub tracking_valid : Bool

pub record RunGateSample : Type 0 where
  pub engaged : Bool
  pub valid : Bool

-- The `reason` of an update.
pub data Reason : Type 0 where
  latched invalid_input clutch_released startup_release_required : Reason
  explicit_release_and_reclutch_required fresh_clutch_edge_required following : Reason

pub record ClutchUpdate (P : Type 0) : Type 0 where
  pub state : ClutchState
  pub target_pose : Option P
  pub reason : Reason
  pub anchor_id : ℕ

-- The RuntimeErrors of `recenter` and `reset_fault`, and what the mapper raises.
pub data Error : Type 0 where
  not_released invalid_tracking not_latched unsafe_reset : Error
  mapper_error : Mapper.Error → Error

pub record ClutchController (P : Type 0) : Type 0 where
  pub mapper : RelativePoseMapper P
  pub poses_are_operator_frame : Bool
  pub state : ClutchState
  pub last_gate_engaged : Bool

-- `self.state in {STOPPED, FAULT}`
abbrev pub is_latched : ClutchState → Bool
is_latched stopped = true
is_latched fault = true
is_latched _ = false

-- What a method returns: the controller, and a value or an exception.
abbrev pub Outcome : Type 0 → Type 0 → Type 0
Outcome P A = ClutchController P × Result Error A

module _ {P : Type 0} where
  -- The constructor.
  unfoldable pub new : RelativePoseMapper P → Bool → ClutchController P
  new mapper poses_are_operator_frame = record {
    mapper = mapper;
    poses_are_operator_frame = poses_are_operator_frame;
    state = waiting_for_release;
    last_gate_engaged = false;
  }

  -- `ClutchUpdate(self.state, target, reason, self.mapper.anchor_id)`
  abbrev pub report : ClutchController P → Option P → Reason → Outcome P (ClutchUpdate P)
  report c target reason = (
    c,
    ok (record {
      state = c.state;
      target_pose = target;
      reason = reason;
      anchor_id = c.mapper.anchor_id;
    }),
  )

  unfoldable pub require_recenter : ClutchController P → ClutchController P
  unfolding clear
  require_recenter c = record c {
    mapper = clear c.mapper;
    state = if is_latched c.state then c.state else recenter_required;
  }

  -- The state change of `update` at a released gate.
  unfoldable pub release : ClutchState → ClutchController P → ClutchController P
  unfolding clear
  release waiting_for_release c = record c { state = disengaged }
  release recenter_required c = record c { state = disengaged }
  release active c = record c { mapper = clear c.mapper; state = disengaged }
  release _ c = c

  unfoldable pub release_after_discontinuity : ClutchController P → ClutchController P
  release_after_discontinuity c = elim c.state [
    | recenter_required ↦ record c { state = disengaged; last_gate_engaged = false }
    | _ ↦ c
  ]

  unfoldable pub stop : ClutchController P → ClutchController P
  unfolding clear
  stop c = record c { mapper = clear c.mapper; state = stopped }

  -- `fault`
  unfoldable pub fail : ClutchController P → ClutchController P
  unfolding clear
  fail c = record c { mapper = clear c.mapper; state = fault }

  unfoldable pub reset_fault : ClutchController P → Bool → Bool → Outcome P (Unit {0})
  reset_fault c gate_released is_safe =
      if not (is_latched c.state)
      then (c, err not_latched)
      else if not gate_released || not is_safe
      then (c, err unsafe_reset)
      else (record c { state = waiting_for_release; last_gate_engaged = false }, ok tt)

module _ {P : Type 0} (ops : PoseOps P) where
  -- The choice between `anchor_operator` and `anchor`, and between `map_operator` and `map`.
  unfoldable pub anchor_at : ClutchController P → P → P → RelativePoseMapper P
  unfolding anchor_operator anchor_source
  anchor_at c pose tcp =
      if c.poses_are_operator_frame
      then anchor_operator c.mapper pose tcp
      else anchor_source ops c.mapper pose tcp

  unfoldable pub map_pose : ClutchController P → P → Result Mapper.Error P
  unfolding map_operator map_source
  map_pose c pose =
      if c.poses_are_operator_frame
      then map_operator ops c.mapper pose
      else map_source ops c.mapper pose

  -- The last lines of `update`: the mapped pose, or what the mapper raises.
  unfoldable pub follow : ClutchController P → P → Outcome P (ClutchUpdate P)
  unfolding map_pose
  follow c pose = elim (map_pose c pose) [
    | ok target ↦ report c (some target) following
    | err e ↦ (c, err (mapper_error e))
  ]

  -- The part of `update` behind the tests, with a valid sample and an engaged gate.
  unfoldable pub engage :
      ClutchState → ClutchController P → P → P → Bool → Outcome P (ClutchUpdate P)
  unfolding anchor_at follow
  engage waiting_for_release c pose tcp rising = report c none startup_release_required
  engage recenter_required c pose tcp rising = report c none explicit_release_and_reclutch_required
  engage disengaged c pose tcp rising =
      if not rising
      then report c none fresh_clutch_edge_required
      else follow (record c { mapper = anchor_at c pose tcp; state = active }) pose
  engage _ c pose tcp rising = follow c pose

  -- `update`
  unfoldable pub update :
      ClutchController P → ArmPoseSample P → RunGateSample → P → Outcome P (ClutchUpdate P)
  unfolding require_recenter release engage
  update c sample gate tcp =
      if is_latched c.state
      then report c none latched
      else if not gate.valid || not sample.tracking_valid
      then report (record (require_recenter c) { last_gate_engaged = gate.engaged }) none
          invalid_input
      else if not gate.engaged
      then report (release c.state (record c { last_gate_engaged = false })) none clutch_released
      else engage c.state (record c { last_gate_engaged = gate.engaged }) sample.pose tcp
          (gate.engaged && not c.last_gate_engaged)

  -- `recenter`
  unfoldable pub recenter : ClutchController P → ArmPoseSample P → P → Bool → Outcome P ℕ
  unfolding anchor_at clear
  recenter c sample tcp gate_released =
      let anchored = anchor_at c sample.pose tcp in
      if not gate_released
      then (c, err not_released)
      else if not sample.tracking_valid
      then (c, err invalid_tracking)
      else (
        record c { mapper = clear anchored; state = disengaged; last_gate_engaged = false },
        ok anchored.anchor_id,
      )

-- One input of `update`.
pub record Input (P : Type 0) : Type 0 where
  pub sample : ArmPoseSample P
  pub gate : RunGateSample
  pub tcp : P

-- A call of a method.
pub data Call (P : Type 0) : Type 0 where
  update_call : Input P → Call P
  recenter_call : ArmPoseSample P → P → Bool → Call P
  require_recenter_call discontinuity_call stop_call fault_call : Call P
  reset_call : Bool → Bool → Call P

module _ {P : Type 0} (ops : PoseOps P) where
  unfoldable pub apply : ClutchController P → Call P → ClutchController P
  apply c (update_call i) = (update ops c i.sample i.gate i.tcp).0
  apply c (recenter_call sample tcp gate_released) = (recenter ops c sample tcp gate_released).0
  apply c require_recenter_call = require_recenter c
  apply c discontinuity_call = release_after_discontinuity c
  apply c stop_call = stop c
  apply c fault_call = fail c
  apply c (reset_call gate_released is_safe) = (reset_fault c gate_released is_safe).0

  unfoldable pub run : ClutchController P → List (Call P) → ClutchController P
  run c [] = c
  run c (x ∷ xs) = run (apply c x) xs

  -- The controller after a sequence of updates.
  unfoldable pub run_updates : ClutchController P → List (Input P) → ClutchController P
  run_updates c [] = c
  run_updates c (i ∷ is) = run_updates (update ops c i.sample i.gate i.tcp).0 is
