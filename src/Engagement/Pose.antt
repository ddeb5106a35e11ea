-- ===== src/Engagement/Pose.antt =====
-- `SpatialPose` and `relative_pose` of src/teleop_rearchitecture/engagement.py, over the arithmetic
-- of Python's floats, which is a parameter: its operations are not under src/.
use mathlib.Core.Path.{subst}
use mathlib.Core.Option.{some-injective}
use embodied_hand_lab.Prelude.{
  ◌≡◌, Bool, true, false, Option, none, some, if◌then◌else◌, is_none, arith, ◌↔◌, List, Bool-cases,
  inl, inr,
}
use embodied_hand_lab.Engagement.Invariant.{run-IsValid}
use embodied_hand_lab.Engagement.{
  Call, run, new, EngagementCoordinator, EngagementCapture, is_tracking,
}

-- The operations on floats that the code uses.
pub record FloatOps : Type 1 where
  pub F : Type 0
  pub zero : F
  pub add : F → F → F
  pub sub : F → F → F
  pub mul : F → F → F
  pub neg : F → F
  pub lt : F → F → Bool

module _ (ops : FloatOps) where
  open ops use {F, zero, add, sub, mul, neg, lt}

  pub record Position : Type 0 where
    pub x : F
    pub y : F
    pub z : F

  pub record Quaternion : Type 0 where
    pub w : F
    pub x : F
    pub y : F
    pub z : F

  pub record SpatialPose : Type 0 where
    pub position_m : Position
    pub orientation_wxyz : Quaternion

  pub record RelativePose : Type 0 where
    pub translation_m : Position
    pub rotation_wxyz : Quaternion

  -- `_quaternion_product`, with the association of Python's operators
  pub quaternion_product : Quaternion → Quaternion → Quaternion
  quaternion_product l r = record {
    w = sub (sub (sub (mul l.w r.w) (mul l.x r.x)) (mul l.y r.y)) (mul l.z r.z);
    x = sub (add (add (mul l.w r.x) (mul l.x r.w)) (mul l.y r.z)) (mul l.z r.y);
    y = add (add (sub (mul l.w r.y) (mul l.x r.z)) (mul l.y r.w)) (mul l.z r.x);
    z = add (sub (add (mul l.w r.z) (mul l.x r.y)) (mul l.y r.x)) (mul l.z r.w);
  }

  -- `if rotation[0] < 0.0: rotation = tuple(-value for value in rotation)`
  pub canonical : Quaternion → Quaternion
  canonical q =
      if lt q.w zero then record { w = neg q.w; x = neg q.x; y = neg q.y; z = neg q.z } else q

  -- The pose of `current` seen from `reference`.
  pub relative : SpatialPose → SpatialPose → RelativePose
  unfolding canonical
  relative reference current =
      let a = reference.orientation_wxyz in
      let inverse : Quaternion = record { w = a.w; x = neg a.x; y = neg a.y; z = neg a.z } in
      let p = current.position_m in
      let o = reference.position_m in
      record {
        translation_m = record { x = sub p.x o.x; y = sub p.y o.y; z = sub p.z o.z };
        rotation_wxyz = canonical (quaternion_product inverse current.orientation_wxyz);
      }

  unfoldable pub relative_of :
      Option (EngagementCapture SpatialPose) → Option SpatialPose → Bool → Option RelativePose
  relative_of (some k) (some current) true = some (relative k.input_reference current)
  relative_of _ _ _ = none

  -- `EngagementCoordinator.relative_pose`
  pub relative_pose : EngagementCoordinator SpatialPose → Option RelativePose
  unfolding relative_of
  relative_pose c = relative_of c.capture c.latest_input_pose (is_tracking c.mode)

  -- Of a coordinator that any calls have led to, the relative pose is there exactly in
  -- ACTIVE_TRACKING and HOLD_REJECTED.
  pub relative_pose_iff :
      (xs : List (Call SpatialPose))
      → (is_none (relative_pose (run (new SpatialPose) xs)) ≡ false)
        ↔ (is_tracking (run (new SpatialPose) xs).mode ≡ true)
  unfolding relative_pose
  relative_pose_iff xs =
      let v = run-IsValid SpatialPose xs in (λ h. ground (arith, v), λ h. ground (arith, v))

  module _ (neg_lt : (a : F) → lt a zero ≡ true → lt (neg a) zero ≡ false) where
    canonical-w : (q : Quaternion) → lt (canonical q).w zero ≡ false
    unfolding canonical
    canonical-w q = elim (Bool-cases (lt q.w zero)) [
      | inl below ↦ rw below (neg_lt q.w below)
      | inr e ↦ rw e e
    ]

    relative_of_canonical :
        (k : Option (EngagementCapture SpatialPose)) (current : Option SpatialPose)
        (tracking : Bool) (r : RelativePose)
        → relative_of k current tracking ≡ some r
        → lt r.rotation_wxyz.w zero ≡ false
    unfolding relative_of relative
    relative_of_canonical (some k) (some current) true r h =
        subst (λ (x : RelativePose). lt x.rotation_wxyz.w zero ≡ false) (some-injective _ _ h)
          (canonical-w _)
    relative_of_canonical _ _ _ r h = cc

    -- If the negation of a float below zero is not below zero, the rotation that a coordinator
    -- reports never has a scalar part below zero, in any state.
    pub relative_pose_canonical :
        (c : EngagementCoordinator SpatialPose) (r : RelativePose)
        → relative_pose c ≡ some r
        → lt r.rotation_wxyz.w zero ≡ false
    unfolding relative_pose
    relative_pose_canonical c r =
        relative_of_canonical c.capture c.latest_input_pose (is_tracking c.mode) r
