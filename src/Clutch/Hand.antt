-- ===== src/Clutch/Hand.antt =====
-- `HandClutchMachine` of src/motion_input/clutch.py. A method that mutates the machine returns the
-- new one beside what it returns or raises. `stale_after_ns` is what `_stale_ns` makes of the
-- configured seconds, and `reacquisition_duration_ns` is `int(reacquisition_duration_s * 1e9)`.
pub mod Invariant
pub mod Safety
use embodied_hand_lab.Prelude.{
  ℕ, ◌+◌, Bool, true, false, not, ◌&&◌, ◌||◌, Option, none, some, String, List, [], ◌∷◌, ◌++◌,
  Result, ok, err, leb, ltb, is_false, if◌then◌else◌,
}
use embodied_hand_lab.Clutch.{
  AnalogClutchSample, AnalogHoldToRun, HysteresisObservation, ClutchAction, freeze,
  start_hand_reacquisition, update, ClutchTransition, ClutchFault, Error, not_started, is_fresh,
  observe, require_release,
}

pub data HandClutchState : Type 0 where
  armed_waiting_for_release disengaged reacquire engaged tracking_fault : HandClutchState

unfoldable pub value : HandClutchState → String
value armed_waiting_for_release = "armed_waiting_for_release"
value disengaged = "disengaged"
value reacquire = "reacquire"
value engaged = "engaged"
value tracking_fault = "tracking_fault"

-- `state is other`
abbrev pub is : HandClutchState → HandClutchState → Bool
is armed_waiting_for_release armed_waiting_for_release = true
is disengaged disengaged = true
is reacquire reacquire = true
is engaged engaged = true
is tracking_fault tracking_fault = true
is _ _ = false

pub record HandClutchMachine : Type 0 where
  pub stale_after_ns : ℕ
  pub reacquisition_duration_ns : ℕ
  pub trigger : AnalogHoldToRun
  pub state : HandClutchState
  pub transitions : List ClutchTransition
  pub fault_history : List ClutchFault
  pub active_fault : Option ClutchFault
  pub cycle_count : ℕ
  pub reacquisition_started_ns : Option ℕ

unfoldable pub new : ℕ → ℕ → AnalogHoldToRun → HandClutchMachine
new stale_after_ns reacquisition_duration_ns trigger = record {
  stale_after_ns = stale_after_ns;
  reacquisition_duration_ns = reacquisition_duration_ns;
  trigger = trigger;
  state = armed_waiting_for_release;
  transitions = [];
  fault_history = [];
  active_fault = none;
  cycle_count = 0;
  reacquisition_started_ns = none;
}

-- `_transition`
unfoldable pub transition : HandClutchMachine → ℕ → HandClutchState → String → HandClutchMachine
transition m now_ns state reason =
    let item : ClutchTransition = record {
      timestamp_monotonic_ns = now_ns;
      previous = value m.state;
      current = value state;
      reason = reason;
    } in
    if is state m.state
    then m
    else record m { state = state; transitions = m.transitions ++ item ∷ [] }

-- `fault`, which any caller may call
unfoldable pub fault : HandClutchMachine → ℕ → String → HandClutchMachine
unfolding transition
fault m now_ns reason =
    let f : ClutchFault = record {
      timestamp_monotonic_ns = now_ns;
      channel = "hand";
      reason = reason;
    } in
    transition
      (record m {
        active_fault = some f;
        fault_history = m.fault_history ++ f ∷ [];
        reacquisition_started_ns = none;
        trigger = require_release m.trigger;
      })
      now_ns tracking_fault reason

-- `self.active_fault is not None and received > self.active_fault.timestamp_monotonic_ns`
abbrev pub received_after : ℕ → Option ClutchFault → Bool
received_after received none = false
received_after received (some f) = ltb f.timestamp_monotonic_ns received

-- What a call of `step` is given.
pub record StepInputs : Type 0 where
  pub sample : AnalogClutchSample
  pub now_ns : ℕ
  pub controller_valid : Bool
  pub skeleton_valid : Bool

-- `fresh` of `step`
unfoldable pub fresh : HandClutchMachine → StepInputs → Bool
fresh m i = i.controller_valid && is_fresh i.sample i.now_ns m.stale_after_ns

-- The last lines of `step`, in REACQUIRE, with the assertion on `reacquisition_started_ns`. The
-- difference from the start is compared as a sum, so nothing is truncated.
unfoldable pub reacquiring :
    HandClutchMachine → ℕ → Option ℕ → HandClutchMachine × Result Error ClutchAction
unfolding transition
reacquiring m now_ns none = (m, err not_started)
reacquiring m now_ns (some started) = (
  if leb (started + m.reacquisition_duration_ns) now_ns
      then transition m now_ns engaged "HAND_REACQUISITION_COMPLETE"
      else m,
  ok update,
)

-- The state dispatch of `step`, behind the two guards on validity.
unfoldable pub dispatch :
    HandClutchState
    → HandClutchMachine
    → StepInputs
    → Bool
    → HysteresisObservation
    → HandClutchMachine × Result Error ClutchAction
unfolding transition fault reacquiring
dispatch armed_waiting_for_release m i is_new o = (
  if o.valid && is_false o.pressed
      then transition m i.now_ns disengaged "VALID_RELEASE_OBSERVED"
      else m,
  ok freeze,
)
dispatch tracking_fault m i is_new o = (
  if o.valid
        && (is_false o.pressed
            && (received_after i.sample.host_receive_monotonic_ns m.active_fault
                && (i.skeleton_valid && i.controller_valid)))
      then transition (record m { active_fault = none }) i.now_ns disengaged
          "FAULT_RECOVERY_RELEASED_AND_VALID"
      else m,
  ok freeze,
)
dispatch disengaged m i is_new o =
    if o.rising_edge
    then if not is_new || not i.skeleton_valid
      then (fault m i.now_ns "HAND_REACQUISITION_INPUT_INVALID", ok freeze)
      else (
        transition
            (record m { reacquisition_started_ns = some i.now_ns; cycle_count = m.cycle_count + 1 })
            i.now_ns reacquire "HAND_PRESS_EDGE",
        ok start_hand_reacquisition,
      )
    else (m, ok freeze)
dispatch reacquire m i is_new o =
    if is_false o.pressed
    then (
      transition (record m { reacquisition_started_ns = none }) i.now_ns disengaged
          "HAND_GRIP_RELEASED",
      ok freeze,
    )
    else reacquiring m i.now_ns m.reacquisition_started_ns
dispatch engaged m i is_new o =
    if is_false o.pressed
    then (
      transition (record m { reacquisition_started_ns = none }) i.now_ns disengaged
          "HAND_GRIP_RELEASED",
      ok freeze,
    )
    else (m, ok update)

-- `step`
unfoldable pub step : HandClutchMachine → StepInputs → HandClutchMachine × Result Error ClutchAction
unfolding dispatch fresh
step m i =
    let is_new = fresh m i in
    let (trigger, o) = observe m.trigger i.sample is_new in
    let m' = record m { trigger = trigger } in
    if not (is m.state armed_waiting_for_release || is m.state tracking_fault) && not is_new
    then (fault m' i.now_ns "HAND_GRIP_STALE_OR_INVALID", ok freeze)
    else if (is m.state engaged || is m.state reacquire) && not i.skeleton_valid
    then (fault m' i.now_ns "RIGHT_HAND_SKELETON_STALE_OR_INVALID", ok freeze)
    else dispatch m.state m' i is_new o

-- A call of one of the two methods.
pub data Call : Type 0 where
  step_call : StepInputs → Call
  fault_call : ℕ → String → Call

unfoldable pub apply : HandClutchMachine → Call → HandClutchMachine
apply m (step_call i) = (step m i).0
apply m (fault_call now_ns reason) = fault m now_ns reason

unfoldable pub run : HandClutchMachine → List Call → HandClutchMachine
run m [] = m
run m (c ∷ cs) = run (apply m c) cs
