-- ===== src/Synchronization/Causality.antt =====
-- The report of src/episode_dataset/synchronization.py: it is returned, its rows lie on the grid, and
-- none of them shows a sample of its future.
use embodied_hand_lab.Prelude.{
  ℕ, ◌≡◌, true, false, Option, none, some, List, [], ◌∷◌, ok, err, Result,
}
use embodied_hand_lab.Prelude.Int.{ℤ, pos, ◌≤ℤ◌, lebℤ, ◌+ℤ◌, ◌-ℤ◌}
use embodied_hand_lab.Synchronization.Observations.{Observation, Role, Row, TimedValue, CameraValue}
use embodied_hand_lab.Synchronization.Report.{
  Error, SyncRow, Inputs, Report, period_of, pick_fps, last_time,
}
use embodied_hand_lab.Prelude.{is_none}

-- An observation that is not later than `t`.
abbrev Past : {X : Type 0} → Option (Observation X) → ℤ → Type 0
Past none t = Unit
Past (some o) t = o.timestamp_ns ≤ℤ t

-- A value that is shown is not later than the row, its age is the difference, and it counts as valid;
-- a value that is not shown does not.
abbrev pub Shown : {X : Type 0} → ℤ → TimedValue X → Type 0
Shown t v = elim v.timestamp_ns [
  | none ↦ v.valid ≡ false
  | some u ↦ (u ≤ℤ t) × (v.age_ns ≡ some (t -ℤ u)) × (v.valid ≡ true)
]

-- An age above the tolerance.
abbrev pub TooOld : ℤ → Option ℤ → Type 0
TooOld tolerance none = Unit
TooOld tolerance (some age) = lebℤ age tolerance ≡ false

-- A frame that is shown is not later than the row and at most the tolerance older, its age is the
-- difference, and index, number and device time are shown with it. A frame that is not shown shows
-- none of these, and has an age above the tolerance if there is one at all.
abbrev pub ShownFrame : {D : Type 0} → ℤ → ℤ → CameraValue D → Type 0
ShownFrame t tolerance v = elim v.mapped_host_timestamp_ns [
  | none ↦
      (v.valid ≡ false)
      × (v.frame_index ≡ none)
      × (v.frame_number ≡ none)
      × (v.device_timestamp_ms ≡ none)
      × TooOld tolerance v.age_ns
  | some u ↦
      (u ≤ℤ t)
      × ((t -ℤ u) ≤ℤ tolerance)
      × (v.age_ns ≡ some (t -ℤ u))
      × (v.valid ≡ true)
      × (is_none v.frame_index ≡ false)
      × (is_none v.frame_number ≡ false)
      × (is_none v.device_timestamp_ms ≡ false)
]

module _ {A D : Type 0} where
  -- A row that shows no sample of its future.
  pub record IsCausal (tolerance : ℤ) (t : ℤ) (r : SyncRow A D) : Type 0 where
    pub time : r.timestamp_ns ≡ t
    pub arm : Shown t r.jaka_value
    pub position : Shown t r.position_value
    pub force : Shown t r.force_value
    pub frames : (role : Role) → ShownFrame t tolerance (r.camera role)

  -- Rows at `t`, `t + period` and so on, as long as the time is not above `end`.
  abbrev pub OnGrid : ℤ → ℤ → ℕ → ℤ → List (SyncRow A D) → Type 0
  OnGrid tolerance end period t [] = lebℤ t end ≡ false
  OnGrid tolerance end period t (r ∷ rs) =
      (t ≤ℤ end) × IsCausal tolerance t r × OnGrid tolerance end period (t +ℤ pos period) rs

  abbrev Gridded : ℤ → ℤ → ℕ → ℤ → Option (List (SyncRow A D)) → Type 0
  Gridded tolerance end period t none = ⊥
  Gridded tolerance end period t (some rows) = OnGrid tolerance end period t rows

module _ {A D : Type 0} where
  -- The report has the rate, and its rows lie on the grid between the first and the last time.
  abbrev pub Reported :
      Inputs A D → ℤ → Row A D → List (Row A D) → Result Error (Option (Report A D)) → Type 0
  Reported i tolerance_ns first rest (err e) = ⊥
  Reported i tolerance_ns first rest (ok none) = ⊥
  Reported i tolerance_ns first rest (ok (some r)) =
      (r.fps ≡ pick_fps i.fps i.metadata_fps)
      × OnGrid tolerance_ns (last_time first.timestamp_ns rest) (period_of r.fps) first.timestamp_ns
          r.timeline

  -- The device time of an entry, if there is one, is mapped to a finite time.
  abbrev pub IsMapped : (D → Option ℤ) → Role → Row A D → Type 0
  IsMapped mapped role r =
      (d : D) → (r.camera role).rgb_device_timestamp_ms ≡ some d → is_none (mapped d) ≡ false
