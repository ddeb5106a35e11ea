-- ===== src/Teleoperation/Supervision/Latch.antt =====
-- When `ArmSafetySupervisor` of src/teleoperation/supervision.py allows a target, and its fault latch.
use embodied_hand_lab.Prelude.{
  ◌≡◌, ◌↔◌, Bool, true, false, ◌||◌, Option, none, some, List, [], ◌∷◌, Result, ok, err, arith,
  refl, inl, inr, Bool-cases, Option-cases, String, All, if_keeps,
}
use embodied_hand_lab.Prelude.Int.{ℤ, pos, ltbℤ}
use embodied_hand_lab.Float.{Float, float_le, float_lt, zero_float}
use embodied_hand_lab.Lifecycle.Stale.{SafetyAction, hold, allow, controlled_stop, abort}
use embodied_hand_lab.Teleoperation.Supervision.{
  SafetyState, Error, Measures, ArmSafetySupervisor, controlled_stop, decision, evaluate_pose,
  evaluate_cartesian, evaluate_jerk, evaluate_joint_target, reset_fault, start, stop, any_above,
  session_over, Outcome, evaluate_session, any_below,
}
use embodied_hand_lab.Prelude.{ℕ, zero, suc, get_elem?, not, ap, ◌∙◌}
use embodied_hand_lab.Prelude.Int.{◌-ℤ◌, -ℤ_parts}

-- A call of a method.
pub data Call (P J : Type 0) : Type 0 where
  start_call : ℤ → Call P J
  stop_call : Call P J
  cartesian_call : P → ℤ → Call P J
  joint_call : J → Option J → Option Float → ℤ → Call P J
  reset_call : Bool → Call P J

-- The action that was decided, if the evaluation returned.
abbrev pub Decides : SafetyAction → Result Error SafetyState → Type 0
Decides action (ok d) = d.action ≡ action
Decides action (err e) = ⊥

-- No distance is above the bound at the same place.
abbrev pub Within : List Float → List Float → Type 0
Within ds bounds =
    (n : ℕ) (d b : Float)
    → get_elem? ds n ≡ some d
    → get_elem? bounds n ≡ some b
    → float_lt b d ≡ false

any_above-Within : (ds bounds : List Float) → any_above ds bounds ≡ false → Within ds bounds
unfolding any_above
any_above-Within [] bounds h n d b p q = cc
any_above-Within (x ∷ ds) [] h n d b p q = cc
any_above-Within (x ∷ ds) (y ∷ bounds) h zero d b p q = ground arith
any_above-Within (x ∷ ds) (y ∷ bounds) h (suc n) d b p q =
    any_above-Within ds bounds (ground arith) n d b p q

Within-any_above : (ds bounds : List Float) → Within ds bounds → any_above ds bounds ≡ false
unfolding any_above
Within-any_above [] bounds h = refl
Within-any_above (x ∷ ds) [] h = refl
Within-any_above (x ∷ ds) (y ∷ bounds) h =
    let first = h 0 x y refl refl in
    let rest = Within-any_above ds bounds (λ n. h (suc n)) in ground arith

-- The session is over exactly if its duration so far is not below the maximum.
session_over-lt :
    (now_ns started maximum : ℤ)
    → session_over now_ns started maximum ≡ not (ltbℤ (now_ns -ℤ started) maximum)
session_over-lt now_ns started maximum = ground (arith, -ℤ_parts now_ns started)

module _ {P J : Type 0} (measures : Measures P J) where
  unfoldable pub apply : ArmSafetySupervisor → Call P J → ArmSafetySupervisor
  apply s (start_call now_ns) = start s now_ns
  apply s stop_call = stop s
  apply s (cartesian_call target now_ns) = (evaluate_cartesian measures s target now_ns).0
  apply s (joint_call target previous dt now_ns) =
      (evaluate_joint_target measures s target previous dt now_ns).0
  apply s (reset_call safe) = (reset_fault s safe).0

  unfoldable pub run : ArmSafetySupervisor → List (Call P J) → ArmSafetySupervisor
  run s [] = s
  run s (c ∷ cs) = run (apply s c) cs

  -- No call resets the fault in a safe state.
  abbrev pub IsReset : Call P J → Type 0
  IsReset (reset_call safe) = safe ≡ true
  IsReset _ = ⊥

  -- An evaluation keeps the latch, and sets it if it decides ABORT.
  Latches : ArmSafetySupervisor → Outcome → Type 0
  Latches s o =
      (s.fault_latched ≡ true → o.0.fault_latched ≡ true)
      × (Decides abort o.1 → o.0.fault_latched ≡ true)

  decision-Latches :
      (s : ArmSafetySupervisor) (action : SafetyAction) (now_ns : ℤ) (reason : String)
      → Latches s (decision s action now_ns reason)
  unfolding Latches decision
  decision-Latches s action now_ns reason = (λ h. ground arith, λ h. ground arith)

  pose-Latches :
      (s : ArmSafetySupervisor) (target : P) (now_ns : ℤ)
      → Latches s (evaluate_pose measures s target now_ns)
  unfolding evaluate_pose
  pose-Latches s target now_ns =
      if_keeps (Latches s) (any_above (measures.delta target) measures.extent) _ _
        (decision-Latches s abort now_ns "absolute_workspace_envelope")
        (if_keeps (Latches s) (float_lt measures.maximum_angle (measures.angle target)) _ _
          (decision-Latches s abort now_ns "absolute_orientation_envelope")
          (decision-Latches s allow now_ns "cartesian_target_safe"))

  session-Latches :
      (s : ArmSafetySupervisor) (started : Option ℤ) (target : P) (now_ns : ℤ)
      → Latches s (evaluate_session measures s started target now_ns)
  unfolding evaluate_session
  session-Latches s none target now_ns = decision-Latches s hold now_ns "session_not_started"
  session-Latches s (some started_ns) target now_ns =
      if_keeps (Latches s) (session_over now_ns started_ns s.maximum_session_ns) _ _
        (decision-Latches s controlled_stop now_ns "maximum_session_duration")
        (pose-Latches s target now_ns)

  cartesian-Latches :
      (s : ArmSafetySupervisor) (target : P) (now_ns : ℤ)
      → Latches s (evaluate_cartesian measures s target now_ns)
  unfolding evaluate_cartesian
  cartesian-Latches s target now_ns =
      if_keeps (Latches s) s.fault_latched _ _ (decision-Latches s abort now_ns "fault_latched")
        (session-Latches s s.started_ns target now_ns)

  jerk-Latches :
      (s : ArmSafetySupervisor) (target : J) (previous : Option J) (dt : Option Float) (now_ns : ℤ)
      → Latches s (evaluate_jerk measures s target previous dt now_ns)
  unfolding evaluate_jerk
  jerk-Latches s target none dt now_ns = decision-Latches s allow now_ns "joint_target_safe"
  jerk-Latches s target (some previous) none now_ns =
      decision-Latches s abort now_ns "invalid_joint_target_dt"
  jerk-Latches s target (some previous) (some dt) now_ns =
      if_keeps (Latches s) (float_le dt zero_float) _ _
        (decision-Latches s abort now_ns "invalid_joint_target_dt")
        (if_keeps (Latches s) (float_lt measures.maximum_jerk (measures.jerk target previous dt)) _
          _ (decision-Latches s abort now_ns "joint_jerk_limit")
          (decision-Latches s allow now_ns "joint_target_safe"))

  joint-Latches :
      (s : ArmSafetySupervisor) (target : J) (previous : Option J) (dt : Option Float) (now_ns : ℤ)
      → Latches s (evaluate_joint_target measures s target previous dt now_ns)
  unfolding evaluate_joint_target
  joint-Latches s target previous dt now_ns =
      if_keeps (Latches s)
        (any_below (measures.position target) measures.lower
          || any_above (measures.position target) measures.upper)
        _ _ (decision-Latches s abort now_ns "joint_soft_limit")
        (if_keeps (Latches s) (float_lt measures.maximum_speed (measures.speed target)) _ _
          (decision-Latches s abort now_ns "joint_velocity_limit")
          (if_keeps (Latches s)
            (float_lt measures.maximum_acceleration (measures.acceleration target)) _ _
            (decision-Latches s abort now_ns "joint_acceleration_limit")
            (jerk-Latches s target previous dt now_ns)))

  apply-latched :
      (s : ArmSafetySupervisor) (c : Call P J)
      → s.fault_latched ≡ true
      → (IsReset c → ⊥)
      → (apply s c).fault_latched ≡ true
  unfolding apply start stop reset_fault Latches
  apply-latched s (start_call now_ns) h k = h
  apply-latched s stop_call h k = h
  apply-latched s (cartesian_call target now_ns) h k = (cartesian-Latches s target now_ns).0 h
  apply-latched s (joint_call target previous dt now_ns) h k =
      (joint-Latches s target previous dt now_ns).0 h
  apply-latched s (reset_call safe) h k = elim (Bool-cases safe) [
    | inl e ↦ absurd (k e)
    | inr e ↦ rw e h
  ]

  run-latched :
      (s : ArmSafetySupervisor) (cs : List (Call P J))
      → s.fault_latched ≡ true
      → All (λ c. IsReset c → ⊥) cs
      → (run s cs).fault_latched ≡ true
  unfolding run
  run-latched s [] h k = h
  run-latched s (c ∷ cs) h k = run-latched (apply s c) cs (apply-latched s c h k.0) k.1

  latched_aborts :
      (s : ArmSafetySupervisor) (target : P) (now_ns : ℤ)
      → s.fault_latched ≡ true
      → ltbℤ now_ns (pos 0) ≡ false
      → Decides abort (evaluate_cartesian measures s target now_ns).1
  unfolding evaluate_cartesian decision
  latched_aborts s target now_ns h k = rw h (rw k refl)

  -- The call decides ABORT.
  abbrev pub Aborts : ArmSafetySupervisor → Call P J → Type 0
  Aborts s (cartesian_call target now_ns) =
      Decides abort (evaluate_cartesian measures s target now_ns).1
  Aborts s (joint_call target previous dt now_ns) =
      Decides abort (evaluate_joint_target measures s target previous dt now_ns).1
  Aborts _ _ = ⊥

  Aborts-latches :
      (s : ArmSafetySupervisor) (c : Call P J) → Aborts s c → (apply s c).fault_latched ≡ true
  unfolding apply Latches
  Aborts-latches s (start_call now_ns) h = absurd h
  Aborts-latches s stop_call h = absurd h
  Aborts-latches s (cartesian_call target now_ns) h = (cartesian-Latches s target now_ns).1 h
  Aborts-latches s (joint_call target previous dt now_ns) h =
      (joint-Latches s target previous dt now_ns).1 h
  Aborts-latches s (reset_call safe) h = absurd h

  -- Once a pose or joint target is decided ABORT, and whatever is called then but a reset in a safe
  -- state, every pose target at a non-negative time is decided ABORT, sessions started anew included.
  pub abort_latches :
      (s : ArmSafetySupervisor) (c : Call P J) (cs : List (Call P J)) (target : P) (now_ns : ℤ)
      → Aborts s c
      → All (λ c. IsReset c → ⊥) cs
      → ltbℤ now_ns (pos 0) ≡ false
      → Decides abort (evaluate_cartesian measures (run (apply s c) cs) target now_ns).1
  abort_latches s c cs target now_ns h k later =
      latched_aborts (run (apply s c) cs) target now_ns
        (run-latched (apply s c) cs (Aborts-latches s c h) k) later

  -- A pose target is decided ALLOW exactly if no fault is latched, a session is started and has lasted
  -- less than its maximum, on no axis the distance from the start pose is above the half extent of
  -- that axis, the angle is not above its maximum, and the time is not negative.
  pub cartesian_allow_iff :
      (s : ArmSafetySupervisor) (target : P) (now_ns : ℤ)
      → Decides allow (evaluate_cartesian measures s target now_ns).1 ↔ (
          (s.fault_latched ≡ false)
          × ((started : ℤ) × (s.started_ns ≡ some started)
              × (ltbℤ (now_ns -ℤ started) s.maximum_session_ns ≡ true))
          × Within (measures.delta target) measures.extent
          × (float_lt measures.maximum_angle (measures.angle target) ≡ false)
          × (ltbℤ now_ns (pos 0) ≡ false))
  unfolding evaluate_cartesian evaluate_session evaluate_pose decision
  cartesian_allow_iff s target now_ns = (
    λ h. elim (Option-cases s.started_ns) [
      | inl e ↦ absurd (ground arith)
      | inr (started, e) ↦
          let over = session_over-lt now_ns started s.maximum_session_ns in
          let inside : any_above (measures.delta target) measures.extent ≡ false = ground arith in
          (
            ground arith,
            (started, e, ground arith),
            any_above-Within (measures.delta target) measures.extent inside,
            ground arith,
            ground arith,
          )
    ],
    λ (f, (started, e, o), a, g, t).
        let over = session_over-lt now_ns started s.maximum_session_ns in
        let still : session_over now_ns started s.maximum_session_ns ≡ false = over ∙ ap not o in
        let inside = Within-any_above (measures.delta target) measures.extent a in
        rw f (rw e (rw still (rw inside (rw g (rw t refl))))),
  )
