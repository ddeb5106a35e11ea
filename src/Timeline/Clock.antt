-- ===== src/Timeline/Clock.antt =====
-- `CanonicalClock` of src/episode_dataset/timeline.py. Its period is `round(1e9 / fps)`: the quotient of
-- the two integers, rounded to a double and then to an integer. The first rounding moves a quotient
-- neither to nor across the middle of two integers, so the second one is that of the exact quotient.
use mathlib.Core.Path.{subst}
use embodied_hand_lab.Prelude.Int.{ℤ, pos, lebℤ, pos_part}
use embodied_hand_lab.Prelude.{
  ◌%◌, ◌==◌, ◌||◌, not, ap, sym, ℕ, ◌+◌, ◌*◌, ◌/◌, ◌-◌, ◌≤◌, ◌<◌, ◌≡◌, Result, ok, err, leb, ltb,
  if◌then◌else◌, arith, Bool-cases, inl, inr, Option, none, some, List, [], ◌∷◌, is_none,
}

pub data Error : Type 0 where
  bad_fps already_started not_started : Error

pub record CanonicalClock : Type 0 where
  pub period_ns : ℕ
  pub start_ns : Option ℕ
  pub next_ns : Option ℕ
  pub frame_index : ℕ
  pub nominal_slot_index : ℕ
  pub last_nominal_slot_index : ℕ
  pub last_missed_slots_before : ℕ
  pub last_missed_slots_after : ℕ
  pub missed_slots_before_next : ℕ
  pub total_missed_slots : ℕ

-- The fields that the constructor sets.
abbrev pub fresh_clock : ℕ → CanonicalClock
fresh_clock period_ns = record {
  period_ns = period_ns;
  start_ns = none;
  next_ns = none;
  frame_index = 0;
  nominal_slot_index = 0;
  last_nominal_slot_index = 0;
  last_missed_slots_before = 0;
  last_missed_slots_after = 0;
  missed_slots_before_next = 0;
  total_missed_slots = 0;
}

-- `round` of a quotient: to the nearest integer, and from the middle to the even one.
unfoldable pub round_quotient : ℕ → ℕ → ℕ
round_quotient n d =
    let q = n / d in
    if ltb (n % d * 2) d then q else if ltb d (n % d * 2) || not (q % 2 == 0) then q + 1 else q

-- The constructor.
unfoldable pub new : ℤ → Result Error CanonicalClock
new fps =
    if lebℤ fps (pos 0)
    then err bad_fps
    else ok (fresh_clock (round_quotient 1_000_000_000 (pos_part fps)))

-- The frame that a call returns: its index and its canonical time.
abbrev pub Slot : Type 0
Slot = ℕ × ℕ

unfoldable pub start : CanonicalClock → ℕ → CanonicalClock × Result Error Slot
start c timestamp_ns =
    if is_none c.start_ns
    then (
      record c {
        start_ns = some timestamp_ns;
        next_ns = some (timestamp_ns + c.period_ns);
        frame_index = 1;
        nominal_slot_index = 1;
        last_nominal_slot_index = 0;
        last_missed_slots_before = 0;
        last_missed_slots_after = 0;
        missed_slots_before_next = 0;
        total_missed_slots = 0;
      },
      ok (0, timestamp_ns),
    )
    else (c, err already_started)

-- `(now_ns - self.next_ns) // self.period_ns + 1` if `now_ns >= self.next_ns`
unfoldable pub missed : ℕ → ℕ → ℕ → ℕ
missed period_ns next_ns now_ns =
    if leb next_ns now_ns then (now_ns - next_ns) / period_ns + 1 else 0

-- The part of `due` behind the test that the clock has started; with no slot missed its last
-- assignments change nothing that the first ones have not set to the same value.
unfoldable pub due_at : CanonicalClock → ℕ → ℕ → CanonicalClock × Option Slot
due_at c timestamp_ns now_ns =
    let m = missed c.period_ns (timestamp_ns + c.period_ns) now_ns in
    if ltb now_ns timestamp_ns then (c, none) else (
      record c {
        last_nominal_slot_index = c.nominal_slot_index;
        last_missed_slots_before = c.missed_slots_before_next;
        last_missed_slots_after = m;
        missed_slots_before_next = m;
        frame_index = c.frame_index + 1;
        nominal_slot_index = c.nominal_slot_index + 1 + m;
        next_ns = some (timestamp_ns + c.period_ns + m * c.period_ns);
        total_missed_slots = c.total_missed_slots + m;
      },
      some (c.frame_index, timestamp_ns),
    )

unfoldable pub due : CanonicalClock → ℕ → CanonicalClock × Result Error (Option Slot)
unfolding due_at
due c now_ns = elim c.next_ns [
  | none ↦ (c, err not_started)
  | some timestamp_ns ↦ let (c', slot) = due_at c timestamp_ns now_ns in (c', ok slot)
]

-- What holds of a clock that was started at `s`: the next slot lies on the grid of the start, and
-- each nominal slot that has passed was either emitted as a frame or counted as missed.
pub record OnGrid (s : ℕ) (c : CanonicalClock) : Type 0 where
  pub started : c.start_ns ≡ some s
  pub next : c.next_ns ≡ some (s + c.nominal_slot_index * c.period_ns)
  pub accounted : c.frame_index + c.total_missed_slots ≡ c.nominal_slot_index
  pub positive : 0 < c.period_ns

pub start-OnGrid : (period_ns s : ℕ) → 0 < period_ns → OnGrid s (start (fresh_clock period_ns) s).0
unfolding start
start-OnGrid period_ns s h = ground arith

grid_step : (s n p m : ℕ) → s + n * p + p + m * p ≡ s + (n + 1 + m) * p
grid_step s n p m = omega arith

due_at-OnGrid :
    (s : ℕ) (c : CanonicalClock) (now_ns : ℕ)
    → OnGrid s c
    → OnGrid s (due_at c (s + c.nominal_slot_index * c.period_ns) now_ns).0
unfolding due_at
due_at-OnGrid s c now_ns h =
    let at = s + c.nominal_slot_index * c.period_ns in
    elim (Bool-cases (ltb now_ns at)) [
      | inl early ↦ rw early h
      | inr late ↦
          let m = missed c.period_ns (at + c.period_ns) now_ns in
          rw late (record {
            started = h.started;
            next = ap (λ (t : ℕ). some t) (grid_step s c.nominal_slot_index c.period_ns m);
            accounted = omega (arith, h.accounted);
            positive = h.positive;
          })
    ]

due-eq-due_at :
    (s : ℕ) (c : CanonicalClock) (now_ns : ℕ)
    → OnGrid s c
    → due c now_ns
      ≡ (let t = due_at c (s + c.nominal_slot_index * c.period_ns) now_ns in (t.0, ok t.1))
unfolding due
due-eq-due_at s c now_ns h = ground (arith, h.next)

due-OnGrid : (s : ℕ) (c : CanonicalClock) (now_ns : ℕ) → OnGrid s c → OnGrid s (due c now_ns).0
due-OnGrid s c now_ns h =
    subst (λ (t : CanonicalClock × Result Error (Option Slot)). OnGrid s t.0)
      (sym (due-eq-due_at s c now_ns h)) (due_at-OnGrid s c now_ns h)

-- The clock after calls of `due` at the times given.
unfoldable pub poll : CanonicalClock → List ℕ → CanonicalClock
poll c [] = c
poll c (now_ns ∷ rest) = poll (due c now_ns).0 rest

poll-OnGrid_from :
    (s : ℕ) (c : CanonicalClock) (times : List ℕ) → OnGrid s c → OnGrid s (poll c times)
unfolding poll
poll-OnGrid_from s c [] h = h
poll-OnGrid_from s c (now_ns ∷ rest) h =
    poll-OnGrid_from s (due c now_ns).0 rest (due-OnGrid s c now_ns h)

new-fresh_clock : (fps : ℤ) (c : CanonicalClock) → new fps ≡ ok c → c ≡ fresh_clock c.period_ns
unfolding new
new-fresh_clock fps c h = ground arith

-- However a clock that the constructor made with a positive period is polled once it is started, its
-- next slot stays on the grid of its start, a whole number of periods after it, and frames emitted and
-- slots missed add up to the nominal slots passed.
pub poll-OnGrid :
    (fps : ℤ) (c : CanonicalClock) (s : ℕ) (times : List ℕ)
    → new fps ≡ ok c
    → 0 < c.period_ns
    → OnGrid s (poll (start c s).0 times)
poll-OnGrid fps c s times made h = poll-OnGrid_from s (start c s).0 times (
    subst (λ k. OnGrid s (start k s).0) (sym (new-fresh_clock fps c made))
      (start-OnGrid c.period_ns s h))

missed_bound : (p next now_ns : ℕ) → 0 < p → now_ns < next + missed p next now_ns * p
unfolding missed
missed_bound p next now_ns h = grind arith

missed_least :
    (p at now_ns : ℕ) → 0 < p → at ≤ now_ns → at + p + missed p (at + p) now_ns * p ≤ now_ns + p
unfolding missed
missed_least p at now_ns h m = grind arith

-- On its grid a clock emits a frame exactly if its next slot has come. It then emits that slot, one
-- only, under the next frame index. Of the slots behind it, one period after the other, it passes over
-- the `k` that have come too and counts them as missed, and the slot after these, which lies in the
-- future, is its next one. Before its next slot has come the clock stays as it is.
pub due_lem :
    (s : ℕ) (c : CanonicalClock) (now_ns at : ℕ)
    → OnGrid s c
    → c.next_ns ≡ some at
    → let t = due c now_ns in
      ((now_ns < at) → t ≡ (c, ok none))
      × ((at ≤ now_ns)
          → (t.1 ≡ ok (some (c.frame_index, at)))
            × (t.0.frame_index ≡ c.frame_index + 1)
            × ((k : ℕ) × (t.0.next_ns ≡ some (at + c.period_ns + k * c.period_ns))
                × (now_ns < at + c.period_ns + k * c.period_ns)
                × (at + k * c.period_ns ≤ now_ns)
                × (t.0.nominal_slot_index ≡ c.nominal_slot_index + 1 + k)
                × (t.0.total_missed_slots ≡ c.total_missed_slots + k)
                × (t.0.last_missed_slots_after ≡ k)
                × (t.0.last_missed_slots_before ≡ c.missed_slots_before_next)
                × (t.0.missed_slots_before_next ≡ k)))
unfolding due
due_lem s c now_ns at h e =
    let m = missed c.period_ns (at + c.period_ns) now_ns in
    (
      λ early. ground arith,
      λ late.
          let least : at + m * c.period_ns ≤ now_ns =
            omega (arith, missed_least c.period_ns at now_ns h.positive late) in
          (
            ground arith,
            ground arith,
            (
              m,
              ground arith,
              missed_bound c.period_ns (at + c.period_ns) now_ns h.positive,
              least,
              ground arith,
              ground arith,
              ground arith,
              ground arith,
              ground arith,
            ),
          ),
    )
