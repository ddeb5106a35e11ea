-- ===== src/Clutch/Arm/Safety.antt =====
-- When an arm clutch of src/motion_input/clutch.py lets the arm move.
use embodied_hand_lab.Prelude.{
  ℕ, ◌≤◌, ◌<◌, ◌≡◌, ◌≢◌, true, false, none, some, String, List, [], ◌∷◌, arith, ◌⊎◌, inl, inr, refl,
  ◌↔◌, is_false, ◌∙◌, ok,
}
use embodied_hand_lab.Clutch.{
  make_trigger, AnalogHoldToRun, capture_arm_reference, update, ClutchFault, observe,
  require_release,
}
use embodied_hand_lab.Float.{Float}
use embodied_hand_lab.Clutch.Arm.{
  disengaged, reference_capture, engaged, tracking_fault, ArmClutchMachine, new, StepInputs, step,
  fault, reference_captured, Call, step_call, captured_call, fault_call, apply, run, fresh,
}
use embodied_hand_lab.Clutch.Arm.Invariant.{IsValid, is_released}

-- A step tells the caller to move the arm exactly if the clutch is engaged, the trigger sample is
-- fresh and from a valid controller, the wrist inputs are valid and the trigger is not debounced as
-- released; the clutch then stays engaged.
pub step-update_iff :
    (m : ArmClutchMachine) (i : StepInputs)
    → (((step m i).1 ≡ update) ↔ (
        (m.state ≡ engaged)
        × (fresh m i ≡ true)
        × (i.continuous_inputs_valid ≡ true)
        × (is_false (observe m.trigger i.sample (fresh m i)).0.pressed ≡ false)))
      × ((step m i).1 ≡ update → (step m i).0.state ≡ engaged)
unfolding step observe
step-update_iff m i = ((λ h. ground arith, λ h. ground arith), λ h. ground arith)

-- A step asks for a reference capture exactly on a press edge of a disengaged clutch: the trigger
-- was debounced as released, and a new fresh sample with valid capture inputs reaches the press
-- threshold. This is the only step that leaves the clutch in REFERENCE_CAPTURE from another state.
pub step-capture_iff :
    (m : ArmClutchMachine) (i : StepInputs)
    → IsValid m
    → (((step m i).1 ≡ capture_arm_reference) ↔ (
        (m.state ≡ disengaged)
        × (fresh m i ≡ true)
        × (i.capture_inputs_valid ≡ true)
        × ((observe m.trigger i.sample true).1.new_sample ≡ true)
        × (m.trigger.pressed ≡ some false)
        × (m.trigger.pressed_at ≤ i.sample.value)))
      × (((step m i).0.state ≡ reference_capture)
          → (m.state ≡ reference_capture) ⊎ ((step m i).1 ≡ capture_arm_reference))
unfolding step observe
step-capture_iff m i h = ((λ e. ground arith, λ e. ground arith), λ e. ground arith)

-- A step leaves TRACKING_FAULT only for DISENGAGED, and only with a fresh sample that was received
-- after the fault, a trigger debounced as released and valid controller and capture inputs; the
-- fault is then cleared, and its record kept.
pub step_recovery :
    (m : ArmClutchMachine) (i : StepInputs)
    → IsValid m
    → m.state ≡ tracking_fault
    → (step m i).0.state ≢ tracking_fault
    → ((f : ClutchFault) × (m.active_fault ≡ some f)
        × (f.timestamp_monotonic_ns < i.sample.host_receive_monotonic_ns))
      × (fresh m i ≡ true)
      × (i.capture_inputs_valid ≡ true)
      × ((step m i).0.trigger.pressed ≡ some false)
      × ((step m i).0.state ≡ disengaged)
      × ((step m i).0.active_fault ≡ none)
      × ((step m i).0.fault_history ≡ m.fault_history)
unfolding step observe
step_recovery m i h at left = ground arith

-- Some step in the list reads a trigger value at or below `lo`.
abbrev pub Releases : ℕ → List Call → Type 0
Releases lo [] = ⊥
Releases lo (step_call i ∷ cs) =
    ((i.sample.value ≤ lo) × (i.controller_valid ≡ true)) ⊎ Releases lo cs
Releases lo (captured_call _ ∷ cs) = Releases lo cs
Releases lo (fault_call _ _ ∷ cs) = Releases lo cs

-- The trigger has not been seen released, and the state says so.
pub record IsUnreleased (m : ArmClutchMachine) : Type 0 where
  pub state : is_released m.state ≡ false
  pub trigger : m.trigger.released_observed ≡ false
  pub pressed : is_false m.trigger.pressed ≡ false

step-IsUnreleased :
    (m : ArmClutchMachine) (i : StepInputs)
    → IsUnreleased m
    → ((i.sample.value ≤ m.trigger.released_at) × (i.controller_valid ≡ true))
      ⊎ IsUnreleased (step m i).0
unfolding step observe require_release
step-IsUnreleased m i h = ground arith

step-released_at :
    (m : ArmClutchMachine) (i : StepInputs)
    → (step m i).0.trigger.released_at ≡ m.trigger.released_at
unfolding step observe require_release
step-released_at m i = ground arith

captured-IsUnreleased :
    (m : ArmClutchMachine) (now_ns : ℕ)
    → IsUnreleased m
    → IsUnreleased (reference_captured m now_ns).0
unfolding reference_captured
captured-IsUnreleased m now_ns h = ground arith

fault-IsUnreleased :
    (m : ArmClutchMachine) (now_ns : ℕ) (reason : String) → IsUnreleased (fault m now_ns reason)
unfolding fault require_release
fault-IsUnreleased m now_ns reason = ground arith

apply-released_at :
    (m : ArmClutchMachine) (c : Call) → (apply m c).trigger.released_at ≡ m.trigger.released_at
unfolding apply reference_captured fault require_release
apply-released_at m (step_call i) = step-released_at m i
apply-released_at m (captured_call now_ns) = ground arith
apply-released_at m (fault_call now_ns reason) = ground arith

run_needs_release :
    (lo : ℕ) (m : ArmClutchMachine) (cs : List Call)
    → IsUnreleased m
    → m.trigger.released_at ≡ lo
    → is_released (run m cs).state ≡ true
    → Releases lo cs
unfolding run apply
run_needs_release lo m [] h l r = cc h.state
run_needs_release lo m (step_call i ∷ cs) h l r = elim (step-IsUnreleased m i h) [
  | inl low ↦ inl (rw (← l) low)
  | inr same ↦ inr (run_needs_release lo (step m i).0 cs same (step-released_at m i ∙ l) r)
]
run_needs_release lo m (captured_call now_ns ∷ cs) h l r =
    run_needs_release lo (reference_captured m now_ns).0 cs (captured-IsUnreleased m now_ns h)
      (apply-released_at m (captured_call now_ns) ∙ l) r
run_needs_release lo m (fault_call now_ns reason ∷ cs) h l r =
    run_needs_release lo (fault m now_ns reason) cs (fault-IsUnreleased m now_ns reason)
      (apply-released_at m (fault_call now_ns reason) ∙ l) r

-- From a fault on, whatever the machine was before, no calls bring the clutch to DISENGAGED,
-- REFERENCE_CAPTURE or ENGAGED unless one of them is a step with a valid controller whose trigger
-- value is at or below the release threshold.
pub fault_needs_release :
    (m : ArmClutchMachine) (now_ns : ℕ) (reason : String) (cs : List Call)
    → is_released (run (fault m now_ns reason) cs).state ≡ true
    → Releases m.trigger.released_at cs
unfolding apply
fault_needs_release m now_ns reason cs =
    run_needs_release m.trigger.released_at (fault m now_ns reason) cs
      (fault-IsUnreleased m now_ns reason) (apply-released_at m (fault_call now_ns reason))

-- The same from the start: over a newly made trigger a clutch leaves ARMED_WAITING_FOR_RELEASE and
-- TRACKING_FAULT only after a step that reads a release, so a trigger that is held down from the
-- start never engages.
pub start_needs_release :
    (pressed_at released_at : Float) (stale_after_ns : ℕ) (t : AnalogHoldToRun) (cs : List Call)
    → make_trigger pressed_at released_at ≡ ok t
    → is_released (run (new stale_after_ns t) cs).state ≡ true
    → Releases t.released_at cs
unfolding new make_trigger
start_needs_release p q stale_after_ns t cs made =
    run_needs_release t.released_at (new stale_after_ns t) cs
      (record { state = refl; trigger = ground arith; pressed = ground arith }) refl
