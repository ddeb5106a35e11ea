-- ===== src/Tests/Engaging.antt =====
-- An engagement of src/teleop_rearchitecture/engagement.py, over poses that are numbers.
use embodied_hand_lab.Prelude.{ℕ, ◌≡◌, refl, true, false, List, [], ◌∷◌}
use embodied_hand_lab.Prelude.Int.{pos}
use embodied_hand_lab.Float.{finite, nan, is_finite}
use embodied_hand_lab.Engagement.{
  MeasuredJointState, Call, new, run, apply, is_valid, ok, controlled_braking, note_target,
  begin_engagement, initialize_call, observe_call, begin_call, complete_call, target_call,
  release_call, initialize_disengaged, observe_input, complete_engagement, request_release,
}
use embodied_hand_lab.Engagement.Invariant.{IsValid, run-IsValid}
use embodied_hand_lab.Engagement.Safety.{begin_engagement_iff}
use embodied_hand_lab.Engagement.Epochs.{Ascending, accepted, accepted-Ascending}

abbrev measured : MeasuredJointState
measured = record {
  sequence = pos 4;
  monotonic_ns = pos 100;
  position_rad = finite (pos 1) ∷ [];
  velocity_rad_s = finite (pos 0) ∷ [];
  acceleration_rad_s2 = finite (pos 0) ∷ [];
  valid = true;
}

abbrev bad_measurement : MeasuredJointState
bad_measurement = record measured { position_rad = nan ∷ [] }

abbrev ready : List (Call ℕ)
ready = initialize_call measured ∷ observe_call 3 17 ∷ []

abbrev session : List (Call ℕ)
session =
    initialize_call measured
    ∷ observe_call 3 17
    ∷ begin_call measured 5
    ∷ complete_call
    ∷ target_call 1 1 true
    ∷ target_call 1 1 true
    ∷ target_call 4 1 false
    ∷ release_call
    ∷ []

session_brakes :
    ((run (new ℕ) session).mode ≡ controlled_braking)
    × ((run (new ℕ) session).frozen_source_sequence ≡ 4)
unfolding run apply new is_valid is_finite initialize_disengaged observe_input begin_engagement
    complete_engagement note_target request_release
session_brakes = (refl, refl)

run-IsValid_example : IsValid (run (new ℕ) session)
run-IsValid_example = run-IsValid ℕ session

accepted-Ascending_example : Ascending (0, 0) (accepted (new ℕ) session)
unfolding new
accepted-Ascending_example = accepted-Ascending (new ℕ) session

begin_engagement_iff_example : (begin_engagement (run (new ℕ) ready) measured 5).1 ≡ ok
unfolding run apply new is_valid is_finite initialize_disengaged observe_input
begin_engagement_iff_example =
    (begin_engagement_iff (run (new ℕ) ready) measured 5).0.1 (refl, refl, refl)
