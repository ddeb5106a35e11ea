-- ===== src/Clutch/Arm.antt =====
-- `ArmClutchMachine` of src/motion_input/clutch.py. A method that mutates the machine returns the
-- new one; `stale_after_ns` is what `_stale_ns` makes of the configured seconds.
pub mod Invariant
pub mod Log
pub mod Safety
use embodied_hand_lab.Prelude.{
  ℕ, ◌+◌, Bool, true, false, not, ◌&&◌, ◌||◌, Option, none, some, String, List, [], ◌∷◌, ◌++◌,
  Result, ok, err, ltb, is_false, if◌then◌else◌,
}
use embodied_hand_lab.Clutch.{
  AnalogClutchSample, AnalogHoldToRun, HysteresisObservation, ClutchAction, freeze,
  capture_arm_reference, update, ClutchTransition, ClutchFault, Error, out_of_sequence, is_fresh,
  observe, require_release,
}

pub data ArmClutchState : Type 0 where
  armed_waiting_for_release disengaged reference_capture engaged tracking_fault : ArmClutchState

-- `state.value`
unfoldable pub value : ArmClutchState → String
value armed_waiting_for_release = "armed_waiting_for_release"
value disengaged = "disengaged"
value reference_capture = "reference_capture"
value engaged = "engaged"
value tracking_fault = "tracking_fault"

-- `state is other`
abbrev pub is : ArmClutchState → ArmClutchState → Bool
is armed_waiting_for_release armed_waiting_for_release = true
is disengaged disengaged = true
is reference_capture reference_capture = true
is engaged engaged = true
is tracking_fault tracking_fault = true
is _ _ = false

pub record ArmClutchMachine : Type 0 where
  pub stale_after_ns : ℕ
  pub trigger : AnalogHoldToRun
  pub state : ArmClutchState
  pub transitions : List ClutchTransition
  pub fault_history : List ClutchFault
  pub active_fault : Option ClutchFault
  pub cycle_count : ℕ

-- `__init__`, over a trigger that `make_trigger` gave.
unfoldable pub new : ℕ → AnalogHoldToRun → ArmClutchMachine
new stale_after_ns trigger = record {
  stale_after_ns = stale_after_ns;
  trigger = trigger;
  state = armed_waiting_for_release;
  transitions = [];
  fault_history = [];
  active_fault = none;
  cycle_count = 0;
}

-- `_transition`
unfoldable pub transition : ArmClutchMachine → ℕ → ArmClutchState → String → ArmClutchMachine
transition m now_ns state reason =
    let item : ClutchTransition = record {
      timestamp_monotonic_ns = now_ns;
      previous = value m.state;
      current = value state;
      reason = reason;
    } in
    if is state m.state
    then m
    else record m { state = state; transitions = m.transitions ++ item ∷ [] }

-- `fault`, which any caller may call
unfoldable pub fault : ArmClutchMachine → ℕ → String → ArmClutchMachine
unfolding transition
fault m now_ns reason =
    let f : ClutchFault = record {
      timestamp_monotonic_ns = now_ns;
      channel = "arm";
      reason = reason;
    } in
    transition
      (record m {
        active_fault = some f;
        fault_history = m.fault_history ++ f ∷ [];
        trigger = require_release m.trigger;
      })
      now_ns tracking_fault reason

-- `reference_captured`, with its RuntimeError
unfoldable pub reference_captured :
    ArmClutchMachine → ℕ → ArmClutchMachine × Result Error (Unit {0})
unfolding transition
reference_captured m now_ns =
    if is m.state reference_capture
    then (
      transition (record m { cycle_count = m.cycle_count + 1 }) now_ns engaged
          "ARM_REFERENCE_CAPTURED",
      ok tt,
    )
    else (m, err out_of_sequence)

-- `self.active_fault is not None and received > self.active_fault.timestamp_monotonic_ns`
abbrev pub received_after : ℕ → Option ClutchFault → Bool
received_after received none = false
received_after received (some f) = ltb f.timestamp_monotonic_ns received

-- What a call of `step` is given besides the sample.
pub record StepInputs : Type 0 where
  pub sample : AnalogClutchSample
  pub now_ns : ℕ
  pub controller_valid : Bool
  pub continuous_inputs_valid : Bool
  pub capture_inputs_valid : Bool

-- `fresh` of `step`
unfoldable pub fresh : ArmClutchMachine → StepInputs → Bool
fresh m i = i.controller_valid && is_fresh i.sample i.now_ns m.stale_after_ns

-- The state dispatch of `step`, behind the two guards on validity.
unfoldable pub dispatch :
    ArmClutchState
    → ArmClutchMachine
    → StepInputs
    → Bool
    → HysteresisObservation
    → ArmClutchMachine × ClutchAction
unfolding transition fault
dispatch reference_capture m i is_new o = (m, freeze)
dispatch armed_waiting_for_release m i is_new o = (
  if o.valid && is_false o.pressed
      then transition m i.now_ns disengaged "VALID_RELEASE_OBSERVED"
      else m,
  freeze,
)
dispatch tracking_fault m i is_new o = (
  if o.valid
        && (is_false o.pressed
            && (received_after i.sample.host_receive_monotonic_ns m.active_fault
                && (i.capture_inputs_valid && i.controller_valid)))
      then transition (record m { active_fault = none }) i.now_ns disengaged
          "FAULT_RECOVERY_RELEASED_AND_VALID"
      else m,
  freeze,
)
dispatch disengaged m i is_new o =
    if o.rising_edge
    then if not is_new || not i.capture_inputs_valid
      then (fault m i.now_ns "ARM_REFERENCE_INPUT_INVALID", freeze)
      else (transition m i.now_ns reference_capture "ARM_PRESS_EDGE", capture_arm_reference)
    else (m, freeze)
dispatch engaged m i is_new o =
    if is_false o.pressed
    then (transition m i.now_ns disengaged "ARM_TRIGGER_RELEASED", freeze)
    else (m, update)

-- `step`
unfoldable pub step : ArmClutchMachine → StepInputs → ArmClutchMachine × ClutchAction
unfolding dispatch fresh
step m i =
    let is_new = fresh m i in
    let (trigger, o) = observe m.trigger i.sample is_new in
    let m' = record m { trigger = trigger } in
    if not (is m.state armed_waiting_for_release || is m.state tracking_fault) && not is_new
    then (fault m' i.now_ns "ARM_TRIGGER_STALE_OR_INVALID", freeze)
    else if is m.state engaged && not i.continuous_inputs_valid
    then (fault m' i.now_ns "RIGHT_WRIST_STALE_OR_INVALID", freeze)
    else dispatch m.state m' i is_new o

-- A call of one of the three methods.
pub data Call : Type 0 where
  step_call : StepInputs → Call
  captured_call : ℕ → Call
  fault_call : ℕ → String → Call

unfoldable pub apply : ArmClutchMachine → Call → ArmClutchMachine
apply m (step_call i) = (step m i).0
apply m (captured_call now_ns) = (reference_captured m now_ns).0
apply m (fault_call now_ns reason) = fault m now_ns reason

unfoldable pub run : ArmClutchMachine → List Call → ArmClutchMachine
run m [] = m
run m (c ∷ cs) = run (apply m c) cs
