-- ===== src/Timeline/Deadline.antt =====
-- `advance_fixed_deadline` of src/episode_dataset/timeline.py.
use embodied_hand_lab.Prelude.{
  ℕ, ◌+◌, ◌*◌, ◌/◌, ◌-◌, ◌≤◌, ◌<◌, ◌≡◌, Result, ok, err, leb, if◌then◌else◌, arith, ◌==◌,
}

pub data Error : Type 0 where
  bad_period : Error

unfoldable pub advance_fixed_deadline : ℕ → ℕ → ℕ → Result Error ℕ
advance_fixed_deadline deadline_ns period_ns now_ns =
    let next_ns = deadline_ns + period_ns in
    if period_ns == 0
    then err bad_period
    else if leb next_ns now_ns
    then ok (next_ns + ((now_ns - next_ns) / period_ns + 1) * period_ns)
    else ok next_ns

-- How many periods a deadline is moved: one, and one more for each that has passed meanwhile.
abbrev periods : ℕ → ℕ → ℕ → ℕ
periods deadline_ns period_ns now_ns =
    if leb (deadline_ns + period_ns) now_ns
    then (now_ns - (deadline_ns + period_ns)) / period_ns + 2
    else 1

-- With a positive period the deadline moves by a whole number of periods, at least one, to a time
-- after now, and by no more than it takes: a period earlier would be one period after the old
-- deadline at the least, or not after now. So there is neither a catch-up burst nor a new anchor.
pub advance_fixed_deadline_lem :
    (deadline_ns period_ns now_ns : ℕ)
    → 0 < period_ns
    → (n : ℕ) × (advance_fixed_deadline deadline_ns period_ns now_ns
        ≡ ok (deadline_ns + n * period_ns))
      × (1 ≤ n)
      × (now_ns < deadline_ns + n * period_ns)
      × (2 ≤ n → deadline_ns + n * period_ns ≤ now_ns + period_ns)
unfolding advance_fixed_deadline
advance_fixed_deadline_lem deadline_ns period_ns now_ns pos_period =
    (periods deadline_ns period_ns now_ns, grind arith, ground arith, grind arith, grind arith)
