-- ===== src/Tests/Controllers.antt =====
-- The controllers of src/teleoperation at concrete inputs.
use embodied_hand_lab.Prelude.{
  ℕ, ◌+◌, ◌-◌, ◌≡◌, refl, Bool, true, false, none, List, [], ◌∷◌, String, is_none, inr,
}
use embodied_hand_lab.Prelude.Int.{ℤ, pos}
use embodied_hand_lab.Teleoperation.Clutch
use embodied_hand_lab.Teleoperation.Clutch.{ClutchController, Input, ArmPoseSample, RunGateSample}
use embodied_hand_lab.Teleoperation.Mapper
use embodied_hand_lab.Teleoperation.Mapper.{PoseOps}
use embodied_hand_lab.Teleoperation.Clutch.Safety as Controller
use embodied_hand_lab.Teleoperation.Backend
use embodied_hand_lab.Teleoperation.Backend.{FakeJakaBackend}
use embodied_hand_lab.Teleoperation.Backend.Ownership.{IsValid, backend_run-IsValid}
use embodied_hand_lab.Lifecycle
use embodied_hand_lab.Lifecycle.{ControllerState}
use embodied_hand_lab.Lifecycle.Invariant.{Walk, run-Walk}
use embodied_hand_lab.Sequence
use embodied_hand_lab.Sequence.Laws.{Ascending, accepted_numbers-Ascending}

-- Poses on a half line: the target is the anchor of the robot plus the way of the operator.
abbrev line : PoseOps ℕ
line = record { to_operator = λ p. p; follow = λ source robot current. robot + (current - source) }

abbrev input : Bool → Input ℕ
input engaged = record {
  sample = record { pose = 5; tracking_valid = true };
  gate = record { engaged = engaged; valid = true };
  tcp = 7;
}

abbrev released : ClutchController ℕ
released = record {
  mapper = Mapper.fresh_mapper ℕ;
  poses_are_operator_frame = true;
  state = Clutch.disengaged;
  last_gate_engaged = false;
}

abbrev idle : ClutchController ℕ
idle = record released { state = Clutch.waiting_for_release }

released-IsValid : Controller.IsValid released
released-IsValid = record { anchored = λ e. cc; cleared = λ e. cc }

update_target_iff_example :
    is_none
      (Controller.target_of (Clutch.update line released (input true).sample (input true).gate 7).1)
    ≡ false
update_target_iff_example =
    (Controller.update_target_iff line released (input true) released-IsValid).0.1
      (refl, refl, refl, inr (refl, refl))

abbrev inputs : List (Input ℕ)
inputs = input true ∷ input false ∷ input true ∷ []

abbrev calls : List (Clutch.Call ℕ)
calls =
    Clutch.update_call (input true)
    ∷ Clutch.update_call (input false)
    ∷ Clutch.update_call (input true)
    ∷ Clutch.require_recenter_call
    ∷ Clutch.update_call (input true)
    ∷ Clutch.fault_call
    ∷ Clutch.reset_call true true
    ∷ Clutch.update_call (input false)
    ∷ Clutch.update_call (input true)
    ∷ []

run-update_returns_example : Controller.Reports (
    Clutch.update line
      (Clutch.run line (Clutch.new (Mapper.fresh_mapper ℕ) true) calls)
      (input true).sample
      (input true).gate
      7)
run-update_returns_example = (Controller.run-update_returns line true calls (input true)).1

abbrev stub : FakeJakaBackend ℕ
stub = record {
  joint_position_rad = [];
  fail_operations = λ _. false;
  connected = false;
  edg_active = false;
  commands = [];
  cleanup_events = [];
  owner_thread = none;
  state_sequence = 0;
}

abbrev stub_calls : List (Backend.Call ℕ)
stub_calls =
    Backend.connect_call 1
    ∷ Backend.enter_edg_call 1
    ∷ Backend.command_call 1 4 (1 ∷ 2 ∷ 3 ∷ 4 ∷ 5 ∷ 6 ∷ [])
    ∷ Backend.disconnect_call 2
    ∷ []

backend_run-IsValid_example : IsValid (Backend.run stub stub_calls)
backend_run-IsValid_example =
    backend_run-IsValid stub stub_calls (record { active = λ e. cc; six = tt })

abbrev requests : List (ControllerState × ℤ × String)
requests =
    (Lifecycle.connecting, pos 1, "c")
    ∷ (Lifecycle.running, pos 2, "too early")
    ∷ (Lifecycle.connected, pos 3, "c")
    ∷ (Lifecycle.armed, pos 4, "a")
    ∷ (Lifecycle.edg_ready, pos 5, "e")
    ∷ (Lifecycle.holding, pos 6, "h")
    ∷ (Lifecycle.running, pos 7, "r")
    ∷ []

abbrev never_blank : String → Bool
never_blank _ = false

run-Walk_example :
    Walk Lifecycle.disconnected
      (Lifecycle.run never_blank Lifecycle.new requests).history
      (Lifecycle.run never_blank Lifecycle.new requests).state
run-Walk_example = run-Walk never_blank requests

accepted_numbers-Ascending_example :
    Ascending none (Sequence.accepted (record { last_sequence = none }) (3 ∷ 3 ∷ 1 ∷ 5 ∷ []))
accepted_numbers-Ascending_example =
    accepted_numbers-Ascending (record { last_sequence = none }) (3 ∷ 3 ∷ 1 ∷ 5 ∷ [])
