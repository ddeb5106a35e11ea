-- ===== src/Engagement/Epochs.antt =====
-- Which targets a coordinator of src/teleop_rearchitecture/engagement.py accepts.
use mathlib.Core.Path.{subst}
use embodied_hand_lab.Prelude.{
  ℕ, ◌+◌, ◌≤◌, ◌<◌, ◌≡◌, ◌⊎◌, Bool, true, false, List, [], ◌∷◌, arith, inl, inr, if◌then◌else◌,
  Bool-cases,
}
use embodied_hand_lab.Engagement.{
  EngagementResult, ok, old_epoch, EngagementCoordinator, Call, initialize_disengaged,
  observe_input, begin_engagement, complete_engagement, note_target, request_release,
  braking_complete, hard_stop, reset_hard_stop, apply, run, target_call,
}

-- `(epoch, sequence)` of a target.
abbrev pub Stamp : Type 0
Stamp = ℕ × ℕ

-- The order of targets: by epoch, and by sequence within an epoch.
abbrev pub Before : Stamp → Stamp → Type 0
Before (e, s) (e', s') = (e < e') ⊎ ((e ≡ e') × (s < s'))

abbrev pub Ascending : Stamp → List Stamp → Type 0
Ascending last [] = Unit
Ascending last (t ∷ ts) = Before last t × Ascending t ts

abbrev NotAfter : Stamp → Stamp → Type 0
NotAfter (e, s) (e', s') = (e < e') ⊎ ((e ≡ e') × (s ≤ s'))

Before-NotAfter : (a b c : Stamp) → NotAfter a b → Before b c → Before a c
Before-NotAfter a b c h k = ground arith

Ascending-weaken : (a b : Stamp) (ts : List Stamp) → NotAfter a b → Ascending b ts → Ascending a ts
Ascending-weaken a b [] h k = tt
Ascending-weaken a b (t ∷ ts) h k = (Before-NotAfter a b t h k.0, k.1)

abbrev is_ok : EngagementResult → Bool
is_ok ok = true
is_ok _ = false

module _ {P : Type 0} where
  -- The stamps of the targets that `note_target` answers with OK in a sequence of calls.
  pub accepted : EngagementCoordinator P → List (Call P) → List Stamp
  accepted c [] = []
  accepted c (target_call n epoch accept ∷ xs) =
      let (c', r) = note_target c n epoch accept in
      let rest = accepted c' xs in if is_ok r then (epoch, n) ∷ rest else rest
  accepted c (x ∷ xs) = accepted (apply c x).0 xs

  -- The stamp that every later target has to pass.
  abbrev pub mark : EngagementCoordinator P → Stamp
  mark c = (c.safety_epoch, c.last_target_sequence)

  apply-mark : (c : EngagementCoordinator P) (x : Call P) → NotAfter (mark c) (mark (apply c x).0)
  unfolding apply initialize_disengaged observe_input begin_engagement complete_engagement
      note_target request_release braking_complete hard_stop reset_hard_stop
  apply-mark c x = ground arith

  -- Over any calls from any state, the epoch never falls.
  pub run-epoch_mono :
      (c : EngagementCoordinator P) (xs : List (Call P)) → c.safety_epoch ≤ (run c xs).safety_epoch
  unfolding run
  run-epoch_mono c [] = omega arith
  run-epoch_mono c (x ∷ xs) = omega (arith, run-epoch_mono (apply c x).0 xs, apply-mark c x)

  -- A target of an epoch that has passed is refused for ever: after any further calls it is answered
  -- OLD_EPOCH, and only counted.
  pub old_epoch_refused :
      (c : EngagementCoordinator P) (xs : List (Call P)) (sequence epoch : ℕ) (accept : Bool)
      → epoch < c.safety_epoch
      → let c' = run c xs in
        note_target c' sequence epoch accept
        ≡ (record c' { old_target_rejection_count = c'.old_target_rejection_count + 1 }, old_epoch)
  unfolding note_target
  old_epoch_refused c xs sequence epoch accept h = ground (arith, run-epoch_mono c xs)

  note_target_accepts :
      (c : EngagementCoordinator P) (n epoch : ℕ) (accept : Bool)
      → is_ok (note_target c n epoch accept).1 ≡ true
      → (mark (note_target c n epoch accept).0 ≡ (epoch, n)) × Before (mark c) (epoch, n)
  unfolding note_target
  note_target_accepts c n epoch accept h = ground arith

  accepted-target :
      (c : EngagementCoordinator P) (n epoch : ℕ) (accept : Bool) (xs : List (Call P))
      → Ascending
          (mark (note_target c n epoch accept).0)
          (accepted (note_target c n epoch accept).0 xs)
      → Ascending (mark c) (accepted c (target_call n epoch accept ∷ xs))
  unfolding accepted
  accepted-target c n epoch accept xs h =
      let c' = (note_target c n epoch accept).0 in
      elim (Bool-cases (is_ok (note_target c n epoch accept).1)) [
        | inl e ↦
            let (same, above) = note_target_accepts c n epoch accept e in
            rw e (above, subst (λ t. Ascending t (accepted c' xs)) same h)
        | inr e ↦ rw e (
            Ascending-weaken (mark c) (mark c') (accepted c' xs)
              (unfold apply in apply-mark c (target_call n epoch accept)) h)
      ]

  -- From any state and over any calls, the targets that are accepted ascend strictly, by epoch and
  -- by sequence within an epoch, and lie above the last one accepted before.
  pub accepted-Ascending :
      (c : EngagementCoordinator P) (xs : List (Call P)) → Ascending (mark c) (accepted c xs)
  unfolding accepted apply
  accepted-Ascending c [] = tt
  accepted-Ascending c (target_call n epoch accept ∷ xs) =
      accepted-target c n epoch accept xs (accepted-Ascending (note_target c n epoch accept).0 xs)
  accepted-Ascending c (x ∷ xs) =
      Ascending-weaken (mark c) (mark (apply c x).0) (accepted (apply c x).0 xs) (apply-mark c x)
        (accepted-Ascending (apply c x).0 xs)
