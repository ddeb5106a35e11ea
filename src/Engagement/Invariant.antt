-- ===== src/Engagement/Invariant.antt =====
-- What holds of an engagement coordinator of src/teleop_rearchitecture/engagement.py at any time.
use embodied_hand_lab.Prelude.{
  ℕ, ◌≤◌, ◌<◌, ◌≡◌, Bool, true, false, Option, none, some, List, [], ◌∷◌, arith, is_none,
}
use embodied_hand_lab.Engagement.{
  EngagementMode, engaging, active_tracking, hold_rejected, controlled_braking, stopped_ready,
  EngagementCapture, EngagementCoordinator, Call, new, initialize_disengaged, observe_input,
  begin_engagement, complete_engagement, note_target, request_release, braking_complete, hard_stop,
  reset_hard_stop, apply, run, initialize_call, observe_call, begin_call, complete_call,
  target_call, release_call, stopped_call, hard_stop_call, reset_call,
}

-- A mode that is entered only with a captured reference of the present epoch.
abbrev pub is_referenced : EngagementMode → Bool
is_referenced engaging = true
is_referenced active_tracking = true
is_referenced hold_rejected = true
is_referenced controlled_braking = true
is_referenced stopped_ready = true
is_referenced _ = false

-- What a capture promises: its epoch is `epoch`, and its input had been observed.
abbrev pub Captured : {P : Type 0} → Option (EngagementCapture P) → ℕ → ℕ → Type 0
Captured none epoch latest = Unit
Captured (some k) epoch latest =
    (k.safety_epoch ≡ epoch) × (0 < k.input_sequence) × (k.input_sequence ≤ latest)

module _ {P : Type 0} where
  pub record IsValid (c : EngagementCoordinator P) : Type 0 where
    pub referenced : is_referenced c.mode ≡ true → is_none c.capture ≡ false
    pub captured : Captured c.capture c.safety_epoch c.latest_input_sequence
    pub cleared : c.history_clear_count ≡ c.safety_epoch
    pub frozen : c.frozen_source_sequence ≤ c.last_target_sequence
    pub unobserved : c.latest_input_pose ≡ none → c.latest_input_sequence ≡ 0
    pub observed :
        is_none c.latest_input_pose ≡ false → c.input_replacement_count < c.latest_input_sequence
    pub untouched : c.latest_input_pose ≡ none → c.input_replacement_count ≡ 0

  apply-IsValid : (c : EngagementCoordinator P) (x : Call P) → IsValid c → IsValid (apply c x).0
  unfolding apply initialize_disengaged observe_input begin_engagement complete_engagement
      note_target request_release braking_complete hard_stop reset_hard_stop
  apply-IsValid c (initialize_call m) h = ground arith
  apply-IsValid c (observe_call n p) h = ground arith
  apply-IsValid c (begin_call m now_ns) h = ground arith
  apply-IsValid c complete_call h = ground arith
  apply-IsValid c (target_call n epoch accepted) h = ground arith
  apply-IsValid c release_call h = ground arith
  apply-IsValid c stopped_call h = ground arith
  apply-IsValid c hard_stop_call h = ground arith
  apply-IsValid c (reset_call m) h = ground arith

  new-IsValid : IsValid (new P)
  unfolding new
  new-IsValid = ground arith

  pub run-IsValid_from :
      (c : EngagementCoordinator P) (xs : List (Call P)) → IsValid c → IsValid (run c xs)
  unfolding run
  run-IsValid_from c [] h = h
  run-IsValid_from c (x ∷ xs) h = run-IsValid_from (apply c x).0 xs (apply-IsValid c x h)

-- Every sequence of calls of a new coordinator leaves a valid one.
pub run-IsValid : (P : Type 0) (xs : List (Call P)) → IsValid (run (new P) xs)
run-IsValid P xs = run-IsValid_from (new P) xs new-IsValid
