-- ===== src/Engagement/Safety.antt =====
-- When a coordinator of src/teleop_rearchitecture/engagement.py engages, and how it stops.
use embodied_hand_lab.Prelude.{
  ℕ, ◌+◌, ◌≡◌, ◌≢◌, ◌⊎◌, Bool, true, false, some, List, [], ◌∷◌, arith, is_none, ◌↔◌, refl, All,
  ◌∙◌,
}
use embodied_hand_lab.Engagement.{
  EngagementMode, disengaged, engaging, controlled_braking, stopped_ready, hard_stopped, ok,
  old_epoch, MeasuredJointState, is_valid, EngagementCapture, EngagementCoordinator, Call,
  initialize_disengaged, observe_input, begin_engagement, complete_engagement, note_target,
  request_release, braking_complete, hard_stop, reset_hard_stop, apply, run, stopped_call,
  hard_stop_call, reset_call,
}

-- A state from which an engagement may begin.
abbrev pub is_ready : EngagementMode → Bool
is_ready disengaged = true
is_ready stopped_ready = true
is_ready _ = false

module _ {P : Type 0} where
  -- What an engagement that begins now captures: `pose`, under the next epoch.
  abbrev pub captured : EngagementCoordinator P → MeasuredJointState → ℕ → P → EngagementCapture P
  captured c m now_ns pose = record {
    safety_epoch = c.safety_epoch + 1;
    robot_reference = m;
    input_reference = pose;
    input_sequence = c.latest_input_sequence;
    captured_monotonic_ns = now_ns;
  }

  -- An engagement begins exactly from DISENGAGED or STOPPED_READY, with a valid measurement and an
  -- observed input pose. It then opens a new epoch in which no target was accepted, and captures the
  -- latest input pose under that epoch. Otherwise the coordinator is as it was.
  pub begin_engagement_iff :
      (c : EngagementCoordinator P) (m : MeasuredJointState) (now_ns : ℕ)
      → let t = begin_engagement c m now_ns in
        ((t.1 ≡ ok) ↔ (
          (is_ready c.mode ≡ true) × (is_valid m ≡ true) × (is_none c.latest_input_pose ≡ false)))
        × ((pose : P)
            → c.latest_input_pose ≡ some pose
            → t.1 ≡ ok
            → (t.2 ≡ some (captured c m now_ns pose))
              × (t.0.capture ≡ some (captured c m now_ns pose))
              × (t.0.safety_epoch ≡ c.safety_epoch + 1)
              × (t.0.last_target_sequence ≡ 0)
              × (t.0.mode ≡ engaging))
        × ((t.1 ≢ ok) → t.0 ≡ c)
  unfolding begin_engagement
  begin_engagement_iff c m now_ns =
      ((λ e. ground arith, λ e. ground arith), λ p q e. ground arith, λ e. ground arith)

  -- A call that is not answered OK changes nothing, but that a target of another epoch is counted.
  pub apply_refused :
      (c : EngagementCoordinator P) (x : Call P)
      → (apply c x).1 ≢ ok
      → ((apply c x).0 ≡ c)
        ⊎ (((apply c x).1 ≡ old_epoch)
            × ((apply c x).0
                ≡ record c { old_target_rejection_count = c.old_target_rejection_count + 1 }))
  unfolding apply initialize_disengaged observe_input begin_engagement complete_engagement
      note_target request_release braking_complete hard_stop reset_hard_stop
  apply_refused c x h = ground arith

  -- Not a call that reports the end of braking, and not a hard stop.
  abbrev pub NotStop : Call P → Type 0
  NotStop stopped_call = ⊥
  NotStop hard_stop_call = ⊥
  NotStop _ = Unit

  apply_braking :
      (c : EngagementCoordinator P) (x : Call P)
      → c.mode ≡ controlled_braking
      → NotStop x
      → ((apply c x).0.mode ≡ controlled_braking)
        × ((apply c x).0.frozen_source_sequence ≡ c.frozen_source_sequence)
        × ((apply c x).0.last_target_sequence ≡ c.last_target_sequence)
  unfolding apply initialize_disengaged observe_input begin_engagement complete_engagement
      note_target request_release braking_complete hard_stop reset_hard_stop
  apply_braking c x h n = ground arith

  run_braking_from :
      (f l : ℕ) (c : EngagementCoordinator P) (xs : List (Call P))
      → c.mode ≡ controlled_braking
      → c.frozen_source_sequence ≡ f
      → c.last_target_sequence ≡ l
      → All NotStop xs
      → let c' = run c xs in
        (c'.mode ≡ controlled_braking)
        × (c'.frozen_source_sequence ≡ f)
        × (c'.last_target_sequence ≡ l)
  unfolding run
  run_braking_from f l c [] h hf hl n = (h, hf, hl)
  run_braking_from f l c (x ∷ xs) h hf hl n =
      let (b, bf, bl) = apply_braking c x h n.0 in
      run_braking_from f l (apply c x).0 xs b (bf ∙ hf) (bl ∙ hl) n.1

  -- Once braking has begun, no calls but the report that braking has ended and the hard stop bring
  -- the coordinator out of it, and no target is accepted meanwhile: neither a release, nor a new
  -- engagement, nor a target of any epoch.
  pub run_braking :
      (c : EngagementCoordinator P) (xs : List (Call P))
      → c.mode ≡ controlled_braking
      → All NotStop xs
      → let c' = run c xs in
        (c'.mode ≡ controlled_braking)
        × (c'.frozen_source_sequence ≡ c.frozen_source_sequence)
        × (c'.last_target_sequence ≡ c.last_target_sequence)
  run_braking c xs h =
      run_braking_from c.frozen_source_sequence c.last_target_sequence c xs h refl refl

  -- Not a reset of a hard stop with a valid measurement.
  abbrev pub NotReset : Call P → Type 0
  NotReset (reset_call m) = is_valid m ≡ false
  NotReset _ = Unit

  apply_hard_stopped :
      (c : EngagementCoordinator P) (x : Call P)
      → c.mode ≡ hard_stopped
      → NotReset x
      → ((apply c x).0.mode ≡ hard_stopped)
        × ((apply c x).0.last_target_sequence ≡ c.last_target_sequence)
  unfolding apply initialize_disengaged observe_input begin_engagement complete_engagement
      note_target request_release braking_complete hard_stop reset_hard_stop
  apply_hard_stopped c x h n = ground arith

  run_hard_stopped :
      (c : EngagementCoordinator P) (xs : List (Call P))
      → c.mode ≡ hard_stopped
      → All NotReset xs
      → (run c xs).mode ≡ hard_stopped
  unfolding run
  run_hard_stopped c [] h n = h
  run_hard_stopped c (x ∷ xs) h n =
      run_hard_stopped (apply c x).0 xs (apply_hard_stopped c x h n.0).0 n.1

  -- A hard stop holds, whatever mode it came in, until it is reset with a valid measurement.
  pub hard_stop_holds :
      (c : EngagementCoordinator P) (xs : List (Call P))
      → All NotReset xs
      → (run (hard_stop c) xs).mode ≡ hard_stopped
  unfolding hard_stop
  hard_stop_holds c xs n = run_hard_stopped (record c { mode = hard_stopped }) xs refl n
