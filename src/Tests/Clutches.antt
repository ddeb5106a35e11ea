-- ===== src/Tests/Clutches.antt =====
-- The clutches of src/motion_input/clutch.py at concrete samples. The thresholds stand for 0.75 and
-- 0.55: only their order matters.
use embodied_hand_lab.Prelude.{
  ℕ, ◌+◌, ◌≡◌, ◌≢◌, refl, true, false, none, some, List, [], ◌∷◌, arith, ok, err,
}
use embodied_hand_lab.Float.{finite}
use embodied_hand_lab.Prelude.Int.{pos}
use embodied_hand_lab.Clutch.{
  AnalogClutchSample, AnalogHoldToRun, make_trigger, observe, update, not_started, is_fresh,
  require_release,
}
use embodied_hand_lab.Clutch.Trigger
use embodied_hand_lab.Clutch.Trigger.{observe_edges, make_trigger-IsValid}
use embodied_hand_lab.Clutch.Arm
use embodied_hand_lab.Clutch.Arm.Safety.{
  step-update_iff, step_recovery, fault_needs_release, start_needs_release, Releases,
}
use embodied_hand_lab.Clutch.Arm.Log.{IsLogged, run-IsLogged}
use embodied_hand_lab.Clutch.Hand
use embodied_hand_lab.Clutch.Hand.Invariant.{run-step_returns}

abbrev trigger : AnalogHoldToRun
trigger = record {
  pressed_at = 75;
  released_at = 55;
  pressed = none;
  released_observed = false;
  last_sequence = none;
}

trigger_made : make_trigger (finite (pos 75)) (finite (pos 55)) ≡ ok trigger
unfolding make_trigger
trigger_made = refl

trigger-IsValid : Trigger.IsValid trigger
trigger-IsValid = make_trigger-IsValid (finite (pos 75)) (finite (pos 55)) trigger_made

-- A sample with its value, the time of its receipt and its number.
abbrev sample : ℕ → ℕ → ℕ → AnalogClutchSample
sample value at number = record {
  value = value;
  host_receive_monotonic_ns = at;
  sequence_number = number;
  valid = true;
  source_timestamp_ns = none;
}

abbrev released_trigger : AnalogHoldToRun
released_trigger = record trigger {
  pressed = some false;
  released_observed = true;
  last_sequence = some 1;
}

observe_edges_example : (observe released_trigger (sample 80 20 2) true).1.rising_edge ≡ true
unfolding observe
observe_edges_example =
    (observe_edges released_trigger (sample 80 20 2) true
        (record { ordered = omega arith; false_released = λ e. refl })).0.1
      (refl, refl, refl, omega arith)

abbrev arm_inputs : ℕ → ℕ → ℕ → Arm.StepInputs
arm_inputs value at number = record {
  sample = sample value at number;
  now_ns = at + 1;
  controller_valid = true;
  continuous_inputs_valid = true;
  capture_inputs_valid = true;
}

abbrev arm : Arm.ArmClutchMachine
arm = Arm.new 100 trigger

abbrev arm_ready : Arm.ArmClutchMachine
arm_ready = Arm.run arm (Arm.step_call (arm_inputs 10 10 1) ∷ [])

abbrev arm_calls : List Arm.Call
arm_calls =
    Arm.step_call (arm_inputs 10 10 1)
    ∷ Arm.step_call (arm_inputs 80 20 2)
    ∷ Arm.captured_call 25
    ∷ []

arm_engages : (Arm.run arm arm_calls).state ≡ Arm.engaged
unfolding Arm.run Arm.apply Arm.step Arm.new Arm.reference_captured observe is_fresh
arm_engages = refl

step-update_iff_example : (Arm.step (Arm.run arm arm_calls) (arm_inputs 70 30 3)).1 ≡ update
unfolding Arm.run Arm.apply Arm.step Arm.new Arm.reference_captured observe is_fresh
step-update_iff_example =
    (step-update_iff (Arm.run arm arm_calls) (arm_inputs 70 30 3)).0.1 (refl, refl, refl, refl)

arm_ready-IsValid : Arm.Invariant.IsValid arm_ready
arm_ready-IsValid =
    Arm.Invariant.arm_run-IsValid arm (Arm.step_call (arm_inputs 10 10 1) ∷ [])
      (Arm.Invariant.new-IsValid 100 trigger trigger-IsValid)

abbrev arm_faulted : Arm.ArmClutchMachine
arm_faulted = Arm.run arm (Arm.fault_call 40 "TEST" ∷ [])

step_recovery_example : (Arm.step arm_faulted (arm_inputs 10 50 7)).0.state ≡ Arm.disengaged
unfolding Arm.run Arm.apply Arm.step Arm.new Arm.fault observe is_fresh require_release
step_recovery_example =
    (step_recovery arm_faulted (arm_inputs 10 50 7)
      (Arm.Invariant.arm_run-IsValid arm (Arm.fault_call 40 "TEST" ∷ [])
        (Arm.Invariant.new-IsValid 100 trigger trigger-IsValid))
      refl (λ e. cc)).4

fault_needs_release_example : Releases 55 (Arm.step_call (arm_inputs 10 50 7) ∷ [])
unfolding Arm.run Arm.apply Arm.step Arm.new Arm.fault observe is_fresh require_release
fault_needs_release_example =
    fault_needs_release arm 40 "TEST" (Arm.step_call (arm_inputs 10 50 7) ∷ []) refl

start_needs_release_example : Releases 55 arm_calls
unfolding Arm.run Arm.apply Arm.step Arm.new Arm.reference_captured observe is_fresh
start_needs_release_example =
    start_needs_release (finite (pos 75)) (finite (pos 55)) 100 trigger arm_calls trigger_made refl

run-IsLogged_example : IsLogged (Arm.run arm arm_calls)
run-IsLogged_example = run-IsLogged 100 trigger arm_calls

abbrev hand_inputs : ℕ → ℕ → ℕ → Hand.StepInputs
hand_inputs value at number = record {
  sample = sample value at number;
  now_ns = at + 1;
  controller_valid = true;
  skeleton_valid = true;
}

abbrev hand : Hand.HandClutchMachine
hand = Hand.new 100 50 trigger

abbrev hand_calls : List Hand.Call
hand_calls = Hand.step_call (hand_inputs 10 10 1) ∷ Hand.step_call (hand_inputs 80 20 2) ∷ []

abbrev hand_at : Hand.HandClutchMachine
hand_at = Hand.run hand hand_calls

hand-IsValid : Hand.Invariant.IsValid (Hand.run hand hand_calls)
hand-IsValid =
    Hand.Invariant.hand_run-IsValid hand hand_calls
      (Hand.Invariant.new-IsValid 100 50 trigger trigger-IsValid)

run-step_returns_example :
    (Hand.step (Hand.run hand hand_calls) (hand_inputs 80 90 3)).1 ≢ err not_started
run-step_returns_example =
    run-step_returns 100 50 trigger hand_calls (hand_inputs 80 90 3) trigger-IsValid not_started

abbrev hand_later : List Hand.Call
hand_later = Hand.step_call (hand_inputs 80 90 3) ∷ []

hand_enters : (Hand.run (Hand.run hand hand_calls) hand_later).state ≡ Hand.engaged
unfolding Hand.run Hand.apply Hand.step Hand.new observe is_fresh
hand_enters = refl
