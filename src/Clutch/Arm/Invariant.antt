-- ===== src/Clutch/Arm/Invariant.antt =====
-- What holds of an arm clutch of src/motion_input/clutch.py between two calls.
use embodied_hand_lab.Prelude.{
  ℕ, ◌≡◌, Bool, true, false, String, List, [], ◌∷◌, arith, is_none, not, ◌&&◌, ◌||◌, is_false,
  if_keeps, refl,
}
use embodied_hand_lab.Clutch.{
  AnalogHoldToRun, AnalogClutchSample, ClutchAction, HysteresisObservation, require_release,
  observe,
}
use embodied_hand_lab.Clutch.Trigger
use embodied_hand_lab.Clutch.Arm.{
  ArmClutchState, armed_waiting_for_release, disengaged, reference_capture, engaged, tracking_fault,
  ArmClutchMachine, new, StepInputs, step, dispatch, is, fault, reference_captured, Call, step_call,
  captured_call, fault_call, apply, run, fresh,
}

-- A state in which the trigger has been seen released since the start or the last fault.
abbrev pub is_released : ArmClutchState → Bool
is_released disengaged = true
is_released reference_capture = true
is_released engaged = true
is_released _ = false

pub record IsValid (m : ArmClutchMachine) : Type 0 where
  pub trigger : Trigger.IsValid m.trigger
  pub released : is_released m.state ≡ true → m.trigger.released_observed ≡ true
  pub faulted : m.state ≡ tracking_fault → is_none m.active_fault ≡ false
  pub healthy : is_none m.active_fault ≡ false → m.state ≡ tracking_fault

pub new-IsValid :
    (stale_after_ns : ℕ) (t : AnalogHoldToRun) → Trigger.IsValid t → IsValid (new stale_after_ns t)
unfolding new
new-IsValid n t h = ground arith

fault-IsValid :
    (m : ArmClutchMachine) (now_ns : ℕ) (reason : String)
    → Trigger.IsValid m.trigger
    → IsValid (fault m now_ns reason)
unfolding fault
fault-IsValid m now_ns reason h = ground (arith, Trigger.require_release-IsValid m.trigger h)

observed-IsValid :
    (m : ArmClutchMachine) (s : AnalogClutchSample) (is_new : Bool)
    → IsValid m
    → IsValid (record m { trigger = (observe m.trigger s is_new).0 })
observed-IsValid m s is_new h =
    let agrees = Trigger.observe_agrees m.trigger s is_new h.trigger in
    record {
      trigger = Trigger.observe-IsValid m.trigger s is_new h.trigger;
      released = λ e. agrees.2 (h.released e);
      faulted = h.faulted;
      healthy = h.healthy;
    }

dispatch-IsValid :
    (s : ArmClutchState) (m : ArmClutchMachine) (i : StepInputs) (is_new : Bool)
    (o : HysteresisObservation)
    → m.state ≡ s
    → IsValid m
    → (is_false o.pressed ≡ true → m.trigger.released_observed ≡ true)
    → (o.rising_edge ≡ true → m.trigger.released_observed ≡ true)
    → IsValid (dispatch s m i is_new o).0
unfolding dispatch require_release
dispatch-IsValid armed_waiting_for_release m i is_new o e h low up = ground arith
dispatch-IsValid tracking_fault m i is_new o e h low up = ground arith
dispatch-IsValid disengaged m i is_new o e h low up = ground arith
dispatch-IsValid reference_capture m i is_new o e h low up = h
dispatch-IsValid engaged m i is_new o e h low up = ground arith

-- The machine that a step returns beside its action.
record Leaves (r : ArmClutchMachine × ClutchAction) : Type 0 where
  machine : IsValid r.0

step-Leaves : (m : ArmClutchMachine) (i : StepInputs) → IsValid m → Leaves (step m i)
unfolding step
step-Leaves m i h =
    let (t, o) = observe m.trigger i.sample (fresh m i) in
    let m' : ArmClutchMachine = record m { trigger = t } in
    let valid : IsValid m' = observed-IsValid m i.sample (fresh m i) h in
    let agrees = Trigger.observe_agrees m.trigger i.sample (fresh m i) h.trigger in
    if_keeps Leaves
      (not (is m.state armed_waiting_for_release || is m.state tracking_fault) && not (fresh m i)) _
      _
      (record { machine = fault-IsValid m' i.now_ns "ARM_TRIGGER_STALE_OR_INVALID" valid.trigger })
      (if_keeps Leaves (is m.state engaged && not i.continuous_inputs_valid) _ _
        (record {
          machine = fault-IsValid m' i.now_ns "RIGHT_WRIST_STALE_OR_INVALID" valid.trigger;
        })
        (record {
          machine = dispatch-IsValid m.state m' i (fresh m i) o refl valid agrees.0 agrees.1;
        }))

step-IsValid : (m : ArmClutchMachine) (i : StepInputs) → IsValid m → IsValid (step m i).0
step-IsValid m i h = (step-Leaves m i h).machine

captured-IsValid :
    (m : ArmClutchMachine) (now_ns : ℕ) → IsValid m → IsValid (reference_captured m now_ns).0
unfolding reference_captured
captured-IsValid m now_ns h = ground arith

apply-IsValid : (m : ArmClutchMachine) (c : Call) → IsValid m → IsValid (apply m c)
unfolding apply
apply-IsValid m (step_call i) h = step-IsValid m i h
apply-IsValid m (captured_call now_ns) h = captured-IsValid m now_ns h
apply-IsValid m (fault_call now_ns reason) h = fault-IsValid m now_ns reason h.trigger

-- Every sequence of calls, from any valid machine, leaves a valid machine.
pub arm_run-IsValid : (m : ArmClutchMachine) (cs : List Call) → IsValid m → IsValid (run m cs)
unfolding run
arm_run-IsValid m [] h = h
arm_run-IsValid m (c ∷ cs) h = arm_run-IsValid (apply m c) cs (apply-IsValid m c h)
