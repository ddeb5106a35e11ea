-- ===== src/Clutch/Hand/Invariant.antt =====
-- What holds of a hand clutch of src/motion_input/clutch.py between two calls.
use embodied_hand_lab.Prelude.{
  ℕ, ◌≡◌, ◌≢◌, Bool, true, false, none, String, List, [], ◌∷◌, arith, is_none, err, not, ◌&&◌, ◌||◌,
  is_false, Result, if_keeps, refl,
}
use embodied_hand_lab.Clutch.{
  AnalogHoldToRun, AnalogClutchSample, ClutchAction, HysteresisObservation, require_release, Error,
  observe,
}
use embodied_hand_lab.Clutch.Trigger
use embodied_hand_lab.Clutch.Hand.{
  HandClutchState, armed_waiting_for_release, disengaged, reacquire, engaged, tracking_fault,
  HandClutchMachine, new, StepInputs, step, dispatch, is, fault, Call, step_call, fault_call, apply,
  run, fresh,
}

-- A state in which the trigger has been seen released since the start or the last fault.
abbrev pub is_released : HandClutchState → Bool
is_released disengaged = true
is_released reacquire = true
is_released engaged = true
is_released _ = false

-- A state in which the hand is driven.
abbrev pub is_active : HandClutchState → Bool
is_active reacquire = true
is_active engaged = true
is_active _ = false

pub record IsValid (m : HandClutchMachine) : Type 0 where
  pub trigger : Trigger.IsValid m.trigger
  pub released : is_released m.state ≡ true → m.trigger.released_observed ≡ true
  pub faulted : m.state ≡ tracking_fault → is_none m.active_fault ≡ false
  pub healthy : is_none m.active_fault ≡ false → m.state ≡ tracking_fault
  pub started : is_active m.state ≡ true → is_none m.reacquisition_started_ns ≡ false
  pub stopped : is_active m.state ≡ false → m.reacquisition_started_ns ≡ none

pub new-IsValid :
    (stale_after_ns duration_ns : ℕ) (t : AnalogHoldToRun)
    → Trigger.IsValid t
    → IsValid (new stale_after_ns duration_ns t)
unfolding new
new-IsValid n d t h = ground arith

fault-IsValid :
    (m : HandClutchMachine) (now_ns : ℕ) (reason : String)
    → Trigger.IsValid m.trigger
    → IsValid (fault m now_ns reason)
unfolding fault
fault-IsValid m now_ns reason h = ground (arith, Trigger.require_release-IsValid m.trigger h)

observed-IsValid :
    (m : HandClutchMachine) (s : AnalogClutchSample) (is_new : Bool)
    → IsValid m
    → IsValid (record m { trigger = (observe m.trigger s is_new).0 })
observed-IsValid m s is_new h =
    let valid = Trigger.observe-IsValid m.trigger s is_new h.trigger in
    let agrees = Trigger.observe_agrees m.trigger s is_new h.trigger in
    record {
      trigger = valid;
      released = λ e. agrees.2 (h.released e);
      faulted = h.faulted;
      healthy = h.healthy;
      started = h.started;
      stopped = h.stopped;
    }

-- What the observation of a step says of the machine.
abbrev Agrees : HandClutchMachine → HysteresisObservation → Type 0
Agrees m o =
    (is_false o.pressed ≡ true → m.trigger.released_observed ≡ true)
    × (o.rising_edge ≡ true → m.trigger.released_observed ≡ true)

dispatch-IsValid :
    (s : HandClutchState) (m : HandClutchMachine) (i : StepInputs) (is_new : Bool)
    (o : HysteresisObservation)
    → m.state ≡ s
    → IsValid m
    → Agrees m o
    → IsValid (dispatch s m i is_new o).0
unfolding dispatch require_release
dispatch-IsValid armed_waiting_for_release m i is_new o e h a = ground arith
dispatch-IsValid tracking_fault m i is_new o e h a = ground arith
dispatch-IsValid disengaged m i is_new o e h a = ground arith
dispatch-IsValid reacquire m i is_new o e h a = ground arith
dispatch-IsValid engaged m i is_new o e h a = ground arith

-- The machine that a call returns beside its result.
record Leaves (r : HandClutchMachine × Result Error ClutchAction) : Type 0 where
  machine : IsValid r.0

step-Leaves : (m : HandClutchMachine) (i : StepInputs) → IsValid m → Leaves (step m i)
unfolding step
step-Leaves m i h =
    let (t, o) = observe m.trigger i.sample (fresh m i) in
    let m' : HandClutchMachine = record m { trigger = t } in
    let valid : IsValid m' = observed-IsValid m i.sample (fresh m i) h in
    let agrees = Trigger.observe_agrees m.trigger i.sample (fresh m i) h.trigger in
    if_keeps Leaves
      (not (is m.state armed_waiting_for_release || is m.state tracking_fault) && not (fresh m i)) _
      _ (record { machine = fault-IsValid m' i.now_ns "HAND_GRIP_STALE_OR_INVALID" valid.trigger })
      (if_keeps Leaves ((is m.state engaged || is m.state reacquire) && not i.skeleton_valid) _ _
        (record {
          machine = fault-IsValid m' i.now_ns "RIGHT_HAND_SKELETON_STALE_OR_INVALID" valid.trigger;
        })
        (record {
          machine = dispatch-IsValid m.state m' i (fresh m i) o refl valid (agrees.0, agrees.1);
        }))

step-IsValid : (m : HandClutchMachine) (i : StepInputs) → IsValid m → IsValid (step m i).0
step-IsValid m i h = (step-Leaves m i h).machine

apply-IsValid : (m : HandClutchMachine) (c : Call) → IsValid m → IsValid (apply m c)
unfolding apply
apply-IsValid m (step_call i) h = step-IsValid m i h
apply-IsValid m (fault_call now_ns reason) h = fault-IsValid m now_ns reason h.trigger

-- Every sequence of calls, from any valid machine, leaves a valid machine.
pub hand_run-IsValid : (m : HandClutchMachine) (cs : List Call) → IsValid m → IsValid (run m cs)
unfolding run
hand_run-IsValid m [] h = h
hand_run-IsValid m (c ∷ cs) h = hand_run-IsValid (apply m c) cs (apply-IsValid m c h)

step-ne-err :
    (m : HandClutchMachine) (i : StepInputs) → IsValid m → (e : Error) → (step m i).1 ≢ err e
unfolding step
step-ne-err m i h e = ground arith

-- The assertion in `step` never fails: after any calls of a new machine, a further step returns an
-- action.
pub run-step_returns :
    (stale_after_ns duration_ns : ℕ) (t : AnalogHoldToRun) (cs : List Call) (i : StepInputs)
    → Trigger.IsValid t
    → (e : Error) → (step (run (new stale_after_ns duration_ns t) cs) i).1 ≢ err e
run-step_returns n d t cs i h =
    step-ne-err (run (new n d t) cs) i (hand_run-IsValid (new n d t) cs (new-IsValid n d t h))
