-- ===== src/Clutch/Arm/Log.antt =====
-- The transition log of an arm clutch of src/motion_input/clutch.py.
use text.Mathlib.Text.{◌==◌ as str_eq}
use embodied_hand_lab.Prelude.{
  if_keeps, none, ℕ, ◌+◌, ◌≡◌, Bool, String, List, [], ◌∷◌, arith, refl, if◌then◌else◌, Bool-cases,
  inl, inr, not, ◌&&◌, ◌||◌,
}
use embodied_hand_lab.Clutch.Log.{Linked, entries, Linked-append, entries-append}
use embodied_hand_lab.Clutch.{ClutchAction, freeze, AnalogHoldToRun, HysteresisObservation, observe}
use embodied_hand_lab.Clutch.Arm.{
  ArmClutchState, armed_waiting_for_release, disengaged, reference_capture, engaged, tracking_fault,
  value, is, ArmClutchMachine, new, StepInputs, step, fault, reference_captured, Call, step_call,
  captured_call, fault_call, apply, run, transition, dispatch, fresh,
}

-- The log tells the machine's life: it leads from the first state to the present one, and its
-- entries into ENGAGED are the captures counted by `cycle_count`.
pub record IsLogged (m : ArmClutchMachine) : Type 0 where
  pub linked : Linked "armed_waiting_for_release" m.transitions (value m.state)
  pub cycles : m.cycle_count ≡ entries "engaged" m.transitions

new-IsLogged : (n : ℕ) (t : AnalogHoldToRun) → IsLogged (new n t)
unfolding new value
new-IsLogged n t = record { linked = refl; cycles = refl }

abbrev counted : ArmClutchState → ℕ
counted engaged = 1
counted _ = 0

counted_lem : (s : ArmClutchState) → (if str_eq (value s) "engaged" then 1 else 0) ≡ counted s
unfolding value
counted_lem engaged = refl
counted_lem _ = refl

transition-Linked :
    (m : ArmClutchMachine) (now_ns : ℕ) (s : ArmClutchState) (reason : String)
    → Linked "armed_waiting_for_release" m.transitions (value m.state)
    → let m' = transition m now_ns s reason in
      Linked "armed_waiting_for_release" m'.transitions (value m'.state)
unfolding transition
transition-Linked m now_ns s reason h = elim (Bool-cases (is s m.state)) [
  | inl e ↦ rw e h
  | inr e ↦ rw e (Linked-append _ (value m.state) m.transitions _ h refl)
]

transition-cycles :
    (m : ArmClutchMachine) (now_ns : ℕ) (s : ArmClutchState) (reason : String)
    → let m' = transition m now_ns s reason in
      entries "engaged" m'.transitions
      ≡ entries "engaged" m.transitions + (if is s m.state then 0 else counted s)
unfolding transition
transition-cycles m now_ns s reason = ground (
  arith,
  counted_lem s,
  entries-append "engaged" m.transitions (record {
    timestamp_monotonic_ns = now_ns;
    previous = value m.state;
    current = value s;
    reason = reason;
  }),
)

transition-count :
    (m : ArmClutchMachine) (now_ns : ℕ) (s : ArmClutchState) (reason : String)
    → (transition m now_ns s reason).cycle_count ≡ m.cycle_count
unfolding transition
transition-count m now_ns s reason = ground arith

-- To any state but ENGAGED.
transition-IsLogged :
    (m : ArmClutchMachine) (now_ns : ℕ) (s : ArmClutchState) (reason : String)
    → counted s ≡ 0
    → IsLogged m
    → IsLogged (transition m now_ns s reason)
transition-IsLogged m now_ns s reason other h = record {
  linked = transition-Linked m now_ns s reason h.linked;
  cycles =
      ground
        (arith, h.cycles, transition-cycles m now_ns s reason, transition-count m now_ns s reason);
}

fault-IsLogged :
    (m : ArmClutchMachine) (now_ns : ℕ) (reason : String)
    → IsLogged m
    → IsLogged (fault m now_ns reason)
unfolding fault
fault-IsLogged m now_ns reason h =
    transition-IsLogged _ now_ns tracking_fault reason refl
      (record { linked = h.linked; cycles = h.cycles })

captured-IsLogged :
    (m : ArmClutchMachine) (now_ns : ℕ) → IsLogged m → IsLogged (reference_captured m now_ns).0
unfolding reference_captured
captured-IsLogged m now_ns h = elim (Bool-cases (is m.state reference_capture)) [
  | inr e ↦ rw e h
  | inl e ↦ rw e (record {
    linked = transition-Linked _ now_ns engaged _ h.linked;
    cycles =
        let m' = record m { cycle_count = m.cycle_count + 1 } in
        let r : String = "ARM_REFERENCE_CAPTURED" in
        ground (
          arith,
          h.cycles,
          transition-cycles m' now_ns engaged r,
          transition-count m' now_ns engaged r,
        );
  })
]

-- The machine that a call returns beside its action.
record Logs (r : ArmClutchMachine × ClutchAction) : Type 0 where
  machine : IsLogged r.0

logs : (m : ArmClutchMachine) (a : ClutchAction) → IsLogged m → Logs (m, a)
logs m a h = record { machine = h }

dispatch-Logs :
    (s : ArmClutchState) (m : ArmClutchMachine) (i : StepInputs) (is_new : Bool)
    (o : HysteresisObservation)
    → IsLogged m
    → Logs (dispatch s m i is_new o)
unfolding dispatch
dispatch-Logs reference_capture m i is_new o h = logs _ _ h
dispatch-Logs armed_waiting_for_release m i is_new o h =
    logs _ _ (if_keeps IsLogged _ _ _ (transition-IsLogged m i.now_ns disengaged _ refl h) h)
dispatch-Logs tracking_fault m i is_new o h = logs _ _ (
    if_keeps IsLogged _ _ _
      (transition-IsLogged (record m { active_fault = none }) i.now_ns disengaged _ refl
        (record { linked = h.linked; cycles = h.cycles }))
      h)
dispatch-Logs disengaged m i is_new o h =
    if_keeps Logs _ _ _
      (if_keeps Logs _ _ _ (logs _ _ (fault-IsLogged m i.now_ns _ h))
        (logs _ _ (transition-IsLogged m i.now_ns reference_capture _ refl h)))
      (logs _ _ h)
dispatch-Logs engaged m i is_new o h =
    if_keeps Logs _ _ _ (logs _ _ (transition-IsLogged m i.now_ns disengaged _ refl h)) (logs _ _ h)

step-Logs : (m : ArmClutchMachine) (i : StepInputs) → IsLogged m → Logs (step m i)
unfolding step
step-Logs m i h =
    let (t, o) = observe m.trigger i.sample (fresh m i) in
    let m' : ArmClutchMachine = record m { trigger = t } in
    let h' : IsLogged m' = record { linked = h.linked; cycles = h.cycles } in
    if_keeps Logs
      (not (is m.state armed_waiting_for_release || is m.state tracking_fault) && not (fresh m i)) _
      _ (logs _ freeze (fault-IsLogged m' i.now_ns "ARM_TRIGGER_STALE_OR_INVALID" h'))
      (if_keeps Logs (is m.state engaged && not i.continuous_inputs_valid) _ _
        (logs _ freeze (fault-IsLogged m' i.now_ns "RIGHT_WRIST_STALE_OR_INVALID" h'))
        (dispatch-Logs m.state m' i (fresh m i) o h'))

step-IsLogged : (m : ArmClutchMachine) (i : StepInputs) → IsLogged m → IsLogged (step m i).0
step-IsLogged m i h = (step-Logs m i h).machine

run-IsLogged_from : (m : ArmClutchMachine) (cs : List Call) → IsLogged m → IsLogged (run m cs)
unfolding run apply
run-IsLogged_from m [] h = h
run-IsLogged_from m (step_call i ∷ cs) h = run-IsLogged_from (step m i).0 cs (step-IsLogged m i h)
run-IsLogged_from m (captured_call now_ns ∷ cs) h =
    run-IsLogged_from (reference_captured m now_ns).0 cs (captured-IsLogged m now_ns h)
run-IsLogged_from m (fault_call now_ns reason ∷ cs) h =
    run-IsLogged_from (fault m now_ns reason) cs (fault-IsLogged m now_ns reason h)

-- After any calls of a new machine the entries of its log follow one another without a gap, from
-- ARMED_WAITING_FOR_RELEASE to the present state, and `cycle_count` is the number of entries into
-- ENGAGED.
pub run-IsLogged :
    (stale_after_ns : ℕ) (t : AnalogHoldToRun) (cs : List Call)
    → IsLogged (run (new stale_after_ns t) cs)
run-IsLogged n t cs = run-IsLogged_from (new n t) cs (new-IsLogged n t)
