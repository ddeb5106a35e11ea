-- ===== src/Clutch/Hand/Safety.antt =====
-- When a hand clutch of src/motion_input/clutch.py lets the hand move.
use embodied_hand_lab.Prelude.{
  ℕ, ◌+◌, ◌≤◌, ◌≡◌, true, false, some, String, List, [], ◌∷◌, arith, ◌⊎◌, inl, inr, ◌↔◌, is_false,
  ◌∙◌, ok,
}
use embodied_hand_lab.Clutch.{start_hand_reacquisition, update, observe, require_release}
use embodied_hand_lab.Clutch.Hand.{
  disengaged, reacquire, engaged, HandClutchMachine, StepInputs, step, fault, Call, step_call,
  fault_call, apply, run, fresh,
}
use embodied_hand_lab.Clutch.Hand.Invariant.{IsValid, is_released, is_active}

-- From a valid machine, a step tells the caller to drive the hand exactly if the clutch is in
-- REACQUIRE or ENGAGED, the grip sample is fresh and from a valid controller, the skeleton is valid
-- and the grip is not debounced as released.
pub hand_step-update_iff :
    (m : HandClutchMachine) (i : StepInputs)
    → IsValid m
    → ((step m i).1 ≡ ok update) ↔ (
        (is_active m.state ≡ true)
        × (fresh m i ≡ true)
        × (i.skeleton_valid ≡ true)
        × (is_false (observe m.trigger i.sample (fresh m i)).0.pressed ≡ false))
unfolding step observe
hand_step-update_iff m i h = (λ e. ground arith, λ e. ground arith)

-- ENGAGED is entered only by a step from REACQUIRE that comes at least the reacquisition time after
-- the press edge; the start that it is measured from is the time of the step that entered REACQUIRE.
pub step_engages :
    (m : HandClutchMachine) (i : StepInputs)
    → IsValid m
    → (((step m i).0.state ≡ engaged)
        → (m.state ≡ engaged)
          ⊎ ((started : ℕ) × (m.state ≡ reacquire)
              × (m.reacquisition_started_ns ≡ some started)
              × (started + m.reacquisition_duration_ns ≤ i.now_ns)))
      × (((step m i).0.state ≡ reacquire)
          → ((m.state ≡ reacquire)
              × ((step m i).0.reacquisition_started_ns ≡ m.reacquisition_started_ns))
            ⊎ ((m.state ≡ disengaged)
                × ((step m i).1 ≡ ok start_hand_reacquisition)
                × ((step m i).0.reacquisition_started_ns ≡ some i.now_ns)))
unfolding step observe
step_engages m i h = (λ e. ground arith, λ e. ground arith)

-- Some step in the list reads a grip value at or below `lo`.
abbrev pub Releases : ℕ → List Call → Type 0
Releases lo [] = ⊥
Releases lo (step_call i ∷ cs) =
    ((i.sample.value ≤ lo) × (i.controller_valid ≡ true)) ⊎ Releases lo cs
Releases lo (fault_call _ _ ∷ cs) = Releases lo cs

-- The grip has not been seen released, and the state says so.
pub record IsUnreleased (m : HandClutchMachine) : Type 0 where
  pub state : is_released m.state ≡ false
  pub trigger : m.trigger.released_observed ≡ false
  pub pressed : is_false m.trigger.pressed ≡ false

step-IsUnreleased :
    (m : HandClutchMachine) (i : StepInputs)
    → IsUnreleased m
    → ((i.sample.value ≤ m.trigger.released_at) × (i.controller_valid ≡ true))
      ⊎ IsUnreleased (step m i).0
unfolding step observe require_release
step-IsUnreleased m i h = ground arith

step-released_at :
    (m : HandClutchMachine) (i : StepInputs)
    → (step m i).0.trigger.released_at ≡ m.trigger.released_at
unfolding step observe require_release
step-released_at m i = ground arith

fault-IsUnreleased :
    (m : HandClutchMachine) (now_ns : ℕ) (reason : String) → IsUnreleased (fault m now_ns reason)
unfolding fault require_release
fault-IsUnreleased m now_ns reason = ground arith

fault-released_at :
    (m : HandClutchMachine) (now_ns : ℕ) (reason : String)
    → (fault m now_ns reason).trigger.released_at ≡ m.trigger.released_at
unfolding fault require_release
fault-released_at m now_ns reason = ground arith

run_needs_release :
    (lo : ℕ) (m : HandClutchMachine) (cs : List Call)
    → IsUnreleased m
    → m.trigger.released_at ≡ lo
    → is_released (run m cs).state ≡ true
    → Releases lo cs
unfolding run apply
run_needs_release lo m [] h l r = cc h.state
run_needs_release lo m (step_call i ∷ cs) h l r = elim (step-IsUnreleased m i h) [
  | inl low ↦ inl (rw (← l) low)
  | inr same ↦ inr (run_needs_release lo (step m i).0 cs same (step-released_at m i ∙ l) r)
]
run_needs_release lo m (fault_call now_ns reason ∷ cs) h l r =
    run_needs_release lo (fault m now_ns reason) cs (fault-IsUnreleased m now_ns reason)
      (fault-released_at m now_ns reason ∙ l) r

-- From a fault on, no calls bring the hand clutch to DISENGAGED, REACQUIRE or ENGAGED unless one of
-- them is a step with a valid controller whose grip value is at or below the release threshold.
pub hand_fault_needs_release :
    (m : HandClutchMachine) (now_ns : ℕ) (reason : String) (cs : List Call)
    → is_released (run (fault m now_ns reason) cs).state ≡ true
    → Releases m.trigger.released_at cs
hand_fault_needs_release m now_ns reason cs =
    run_needs_release m.trigger.released_at (fault m now_ns reason) cs
      (fault-IsUnreleased m now_ns reason) (fault-released_at m now_ns reason)
