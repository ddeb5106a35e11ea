-- ===== src/Tests/Supervising.antt =====
-- The supervisor of src/teleoperation/supervision.py with targets on a line.
use embodied_hand_lab.Prelude.{refl, false, some, List, [], ◌∷◌}
use embodied_hand_lab.Prelude.Int.{pos}
use embodied_hand_lab.Float.{Float, finite, float_lt, zero_float}
use embodied_hand_lab.Lifecycle.Stale.{allow, abort}
use embodied_hand_lab.Teleoperation.Supervision.{
  Measures, ArmSafetySupervisor, evaluate_cartesian, evaluate_session, evaluate_pose, decision,
  any_above,
}
use embodied_hand_lab.Teleoperation.Supervision.Latch
use embodied_hand_lab.Teleoperation.Supervision.Latch.{
  Within, Decides, abort_latches, cartesian_allow_iff,
}
use embodied_hand_lab.Prelude.{zero, suc}
use embodied_hand_lab.Prelude.Int.{◌-ℤ◌}

abbrev line : Measures Float Float
line = record {
  delta = λ p. p ∷ [];
  extent = finite (pos 5) ∷ [];
  angle = λ p. zero_float;
  maximum_angle = finite (pos 1);
  position = λ q. q ∷ [];
  lower = zero_float ∷ [];
  upper = finite (pos 5) ∷ [];
  speed = λ q. zero_float;
  maximum_speed = finite (pos 1);
  acceleration = λ q. zero_float;
  maximum_acceleration = finite (pos 1);
  jerk = λ q p dt. zero_float;
  maximum_jerk = finite (pos 1);
}

abbrev started : ArmSafetySupervisor
started = record { maximum_session_ns = pos 100; started_ns = some (pos 10); fault_latched = false }

one_axis : Within (finite (pos 5) ∷ []) (finite (pos 5) ∷ [])
unfolding float_lt
one_axis zero d b p q = cc
one_axis (suc n) d b p q = cc

cartesian_allow_iff_example :
    Decides allow (evaluate_cartesian line started (finite (pos 5)) (pos 20)).1
unfolding float_lt ◌-ℤ◌
cartesian_allow_iff_example =
    (cartesian_allow_iff line started (finite (pos 5)) (pos 20)).1
      (refl, (pos 10, refl, refl), one_axis, refl, refl)

abbrev later : List (Latch.Call Float Float)
later = Latch.stop_call ∷ Latch.start_call (pos 30) ∷ Latch.reset_call false ∷ []

abort_latches_example :
    Decides abort
      (evaluate_cartesian line
        (Latch.run line
          (Latch.apply line started (Latch.cartesian_call (finite (pos 6)) (pos 20)))
          later)
        zero_float
        (pos 40)).1
unfolding evaluate_cartesian evaluate_session evaluate_pose decision any_above float_lt
abort_latches_example =
    abort_latches line started (Latch.cartesian_call (finite (pos 6)) (pos 20)) later zero_float
      (pos 40) refl (λ h. h, (λ h. h, (λ h. cc, tt))) refl
