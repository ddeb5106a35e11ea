-- ===== src/Teleoperation/Clutch/Safety.antt =====
-- When `ClutchController` of src/teleoperation/processing/clutch.py produces a target.
use embodied_hand_lab.Prelude.{
  if◌then◌else◌, ◌+◌, ◌≡◌, ◌⊎◌, Bool, true, false, Option, none, some, List, [], ◌∷◌, arith, inl,
  inr, ◌↔◌, is_none, Result, ok, err,
}
use embodied_hand_lab.Teleoperation.Mapper.{PoseOps, is_anchored, fresh_mapper}
use embodied_hand_lab.Teleoperation.Clutch.{
  ClutchState, waiting_for_release, disengaged, active, recenter_required, ClutchController,
  ClutchUpdate, Input, Error, update, new, run, run_updates, apply, Call, update_call,
  recenter_call, require_recenter_call, discontinuity_call, stop_call, fault_call, reset_call,
  recenter, require_recenter, release_after_discontinuity, stop, fail, reset_fault,
}

module _ {P : Type 0} where
  -- The clutch follows only from anchors.
  pub record IsValid (c : ClutchController P) : Type 0 where
    pub anchored : c.state ≡ active → is_anchored c.mapper ≡ true
    pub cleared : is_anchored c.mapper ≡ true → c.state ≡ active

  -- What an update returned as its target, if it returned.
  abbrev pub target_of : Result Error (ClutchUpdate P) → Option P
  target_of (ok u) = u.target_pose
  target_of (err e) = none

  -- An update returned, with the state of the controller that it leaves.
  abbrev pub Reports : ClutchController P × Result Error (ClutchUpdate P) → Type 0
  Reports (c, ok u) = (u.state ≡ c.state) × (u.anchor_id ≡ c.mapper.anchor_id)
  Reports (c, err e) = ⊥

module _ {P : Type 0} (ops : PoseOps P) where
  apply-IsValid : (c : ClutchController P) (x : Call P) → IsValid c → IsValid (apply ops c x)
  unfolding apply update recenter require_recenter release_after_discontinuity stop fail reset_fault
  apply-IsValid c (update_call i) h = ground arith
  apply-IsValid c (recenter_call sample tcp gate_released) h = ground arith
  apply-IsValid c require_recenter_call h = ground arith
  apply-IsValid c discontinuity_call h = ground arith
  apply-IsValid c stop_call h = ground arith
  apply-IsValid c fault_call h = ground arith
  apply-IsValid c (reset_call gate_released is_safe) h = ground arith

  run-IsValid_from :
      (c : ClutchController P) (xs : List (Call P)) → IsValid c → IsValid (run ops c xs)
  unfolding run
  run-IsValid_from c [] h = h
  run-IsValid_from c (x ∷ xs) h = run-IsValid_from (apply ops c x) xs (apply-IsValid c x h)

  new-IsValid : (frame : Bool) → IsValid (new (fresh_mapper P) frame)
  unfolding new
  new-IsValid frame = ground arith

  update-Reports :
      (c : ClutchController P) (i : Input P)
      → IsValid c
      → Reports (update ops c i.sample i.gate i.tcp)
  unfolding update
  update-Reports c i h = ground arith

  -- After any calls of a new controller over a mapper with no anchor, the mapper is anchored exactly
  -- while the clutch is ACTIVE, and a further update returns: the mapper never raises for want of an
  -- anchor, and the update reports the state and the anchor number of the controller that it leaves.
  pub run-update_returns :
      (frame : Bool) (xs : List (Call P)) (i : Input P)
      → let c = run ops (new (fresh_mapper P) frame) xs in
        ((c.state ≡ active) ↔ (is_anchored c.mapper ≡ true))
        × Reports (update ops c i.sample i.gate i.tcp)
  run-update_returns frame xs i =
      let c = run ops (new (fresh_mapper P) frame) xs in
      let valid : IsValid c =
        run-IsValid_from (new (fresh_mapper P) frame) xs (new-IsValid frame) in
      ((valid.anchored, valid.cleared), update-Reports c i valid)

  -- The pose of the operator: the sample's own, or what the mapping makes of it.
  abbrev pub operator_of : ClutchController P → P → P
  operator_of c pose = if c.poses_are_operator_frame then pose else ops.to_operator pose

  -- From a valid controller an update produces a target exactly if gate and sample are valid, the
  -- gate is engaged, and the clutch is active already or it is disengaged and the gate was not
  -- engaged before; the clutch is then active. At a clutch that was active the anchors stay; at a
  -- press they become the poses of operator and robot at this update, under the next number.
  pub update_target_iff :
      (c : ClutchController P) (i : Input P)
      → IsValid c
      → let t = update ops c i.sample i.gate i.tcp in
        ((is_none (target_of t.1) ≡ false) ↔ (
          (i.gate.valid ≡ true)
          × (i.sample.tracking_valid ≡ true)
          × (i.gate.engaged ≡ true)
          × ((c.state ≡ active) ⊎ ((c.state ≡ disengaged) × (c.last_gate_engaged ≡ false)))))
        × ((is_none (target_of t.1) ≡ false)
            → (t.0.state ≡ active)
              × (((c.state ≡ active) × (t.0.mapper ≡ c.mapper))
                  ⊎ ((c.state ≡ disengaged)
                      × (t.0.mapper.anchor_id ≡ c.mapper.anchor_id + 1)
                      × (t.0.mapper.robot_anchor ≡ some i.tcp)
                      × (t.0.mapper.source_anchor ≡ some (operator_of c i.sample.pose)))))
  unfolding update
  update_target_iff c i h = ((λ e. ground arith, λ e. ground arith), λ e. ground arith)

  -- Some input has a valid sample and a valid gate that is released.
  abbrev pub Releases : List (Input P) → Type 0
  Releases [] = ⊥
  Releases (i ∷ is) =
      ((i.gate.valid ≡ true) × (i.sample.tracking_valid ≡ true) × (i.gate.engaged ≡ false))
      ⊎ Releases is

  abbrev pub is_waiting : ClutchState → Bool
  is_waiting waiting_for_release = true
  is_waiting recenter_required = true
  is_waiting _ = false

  update-waiting :
      (c : ClutchController P) (i : Input P)
      → is_waiting c.state ≡ true
      → ((i.gate.valid ≡ true) × (i.sample.tracking_valid ≡ true) × (i.gate.engaged ≡ false))
        ⊎ (is_waiting (update ops c i.sample i.gate i.tcp).0.state ≡ true)
  unfolding update
  update-waiting c i h = ground arith

  -- From the start, or once a recenter is required, updates alone bring the clutch to another state
  -- only if one of them reads a valid sample with the gate validly released: a gate that is held
  -- engaged never activates the clutch.
  pub update_needs_release :
      (c : ClutchController P) (is : List (Input P))
      → is_waiting c.state ≡ true
      → is_waiting (run_updates ops c is).state ≡ false
      → Releases is
  unfolding run_updates
  update_needs_release c [] h k = cc
  update_needs_release c (i ∷ is) h k = elim (update-waiting c i h) [
    | inl released ↦ inl released
    | inr same ↦ inr (update_needs_release (update ops c i.sample i.gate i.tcp).0 is same k)
  ]
