-- ===== src/Tests/Times.antt =====
-- Deadlines, timelines and clocks of src/episode_dataset/timeline.py at concrete times.
use embodied_hand_lab.Prelude.{ℕ, ◌≡◌, refl, true, some, [], ◌∷◌, arith, ok, All}
use embodied_hand_lab.Timeline.Deadline.{advance_fixed_deadline}
use embodied_hand_lab.Timeline.Causal.{
  CausalTimeline, find, append, find_lem, append-IsValid, NoLaterThan,
}
use embodied_hand_lab.Timeline.Causal
use embodied_hand_lab.Timeline.Clock
use embodied_hand_lab.Timeline.Clock.{
  OnGrid, poll, poll-OnGrid, due, due_lem, start, new, missed, fresh_clock, round_quotient,
  start-OnGrid,
}

late_deadline : advance_fixed_deadline 100 10 137 ≡ ok 140
unfolding advance_fixed_deadline
late_deadline = refl

abbrev timeline : CausalTimeline ℕ
timeline = record { max_age_ns = 20; capacity = 3; items = (30, 3) ∷ (20, 2) ∷ (10, 1) ∷ [] }

timeline-IsValid : Causal.IsValid timeline
timeline-IsValid = record { top = 30; ordered = omega arith; bounded = omega arith }

find_lem_example :
    All (NoLaterThan 25 (λ _. true) (find 25 (λ _. true) timeline.items)) timeline.items
find_lem_example = (find_lem timeline 25 (λ _. true) timeline-IsValid).1

abbrev clock : Clock.CanonicalClock
clock = (start (fresh_clock 10) 100).0

-- 110 is due at 137, and 120 and 130 are dropped.
polled : (poll clock (105 ∷ 137 ∷ [])).next_ns ≡ some 140
unfolding poll due start missed
polled = refl

-- 30 frames a second.
abbrev camera_clock : Clock.CanonicalClock
camera_clock = fresh_clock 33_333_333

due_lem_example : (due clock 137).1 ≡ ok (some (1, 110))
unfolding start
due_lem_example =
    ((due_lem 100 clock 137 110 (start-OnGrid 10 100 (omega arith)) refl).1 (omega arith)).0
