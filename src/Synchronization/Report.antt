-- ===== src/Synchronization/Report.antt =====
-- src/episode_dataset/synchronization.py: `synchronize_staging_episode`, once the files are read. The
-- clock maps of the cameras and the tolerance in nanoseconds are computed from floats, so they are
-- arguments; the keys of the report that only copy an argument are left out.
use embodied_hand_lab.Prelude.{
  ℕ, zero, suc, ◌+◌, Bool, true, false, ◌||◌, not, Option, none, some, List, [], ◌∷◌, if◌then◌else◌,
  Result, ok, err, is_none,
}
use embodied_hand_lab.Prelude.Int.{ℤ, pos, lebℤ, ◌+ℤ◌, ◌-ℤ◌, pos_part}
use embodied_hand_lab.Float.{Float, is_finite, float_lt, zero_float}
use embodied_hand_lab.Timeline.Clock.{round_quotient}
use embodied_hand_lab.Synchronization.Observations.{
  Observation, Role, workspace, wrist, Row, JakaRow, Rh56Row, CameraFrame, TimedValue, CameraValue,
  latest, jaka_observations, rh56_observations, camera_observations, timed_value, select_camera,
  same_int,
}

-- `ValueError` for no rows, for the tolerance and for the rate; what `int` raises for a mapped time that
-- is not finite, and `round` for a tolerance that overflows in nanoseconds
pub data Error : Type 0 where
  empty_episode bad_tolerance bad_fps bad_device_time tolerance_overflow : Error

-- The keys of `validity`.
pub data Key : Type 0 where
  jaka rh56_position rh56_force camera_workspace camera_wrist : Key

abbrev pub same_key : Key → Key → Bool
same_key jaka jaka = true
same_key rh56_position rh56_position = true
same_key rh56_force rh56_force = true
same_key camera_workspace camera_workspace = true
same_key camera_wrist camera_wrist = true
same_key _ _ = false

-- A row of the timeline.
pub record SyncRow (A D : Type 0) : Type 0 where
  pub timestamp_ns : ℤ
  pub jaka_value : TimedValue (List A)
  pub position_value : TimedValue (List A)
  pub force_value : TimedValue (List A)
  pub camera : Role → CameraValue D
  pub validity : List (Key × Bool)

-- The sorted observations that the loop reads.
pub record Sources (A D : Type 0) : Type 0 where
  pub jaka_values : List (Observation (List A))
  pub positions : List (Observation (List A))
  pub forces : List (Observation (List A))
  pub cameras : Role → List (Observation (CameraFrame D))
  pub tolerance_ns : ℤ

abbrev pub prepend : {X : Type 0} → X → Option (List X) → Option (List X)
prepend x none = none
prepend x (some xs) = some (x ∷ xs)

module _ {A D : Type 0} where
  -- The row at one time.
  unfoldable pub row_at : Sources A D → ℤ → SyncRow A D
  unfolding latest timed_value select_camera
  row_at s t =
      let jaka_value = latest s.jaka_values t in
      let position = latest s.positions t in
      let force = latest s.forces t in
      let camera : Role → CameraValue D = λ r. select_camera (s.cameras r) t s.tolerance_ns in
      record {
        timestamp_ns = t;
        jaka_value = timed_value jaka_value t;
        position_value = timed_value position t;
        force_value = timed_value force t;
        camera = camera;
        validity =
            (jaka, not (is_none jaka_value))
            ∷ (rh56_position, not (is_none position))
            ∷ (rh56_force, not (is_none force))
            ∷ (camera_workspace, (camera workspace).valid)
            ∷ (camera_wrist, (camera wrist).valid)
            ∷ [];
      }

  -- `while timestamp_ns <= end_ns`, with fuel; `none` means that the fuel ran out.
  unfoldable pub grid : Sources A D → ℕ → ℤ → ℤ → ℕ → Option (List (SyncRow A D))
  unfolding row_at
  grid s zero t end period = none
  grid s (suc fuel) t end period = elim (lebℤ t end) [
    | false ↦ some []
    | true ↦ prepend (row_at s t) (grid s fuel (t +ℤ pos period) end period)
  ]

-- `counts[name] = counts.get(name, 0) + int(valid)`
unfoldable pub count_key : Key → Bool → List (Key × ℕ) → List (Key × ℕ)
count_key k valid [] = (k, if valid then 1 else 0) ∷ []
count_key k valid ((j, n) ∷ rest) =
    if same_key k j
    then (j, n + (if valid then 1 else 0)) ∷ rest
    else (j, n) ∷ count_key k valid rest

unfoldable pub count_all : List (Key × Bool) → List (Key × ℕ) → List (Key × ℕ)
unfolding count_key
count_all [] counts = counts
count_all ((k, valid) ∷ rest) counts = count_all rest (count_key k valid counts)

module _ {A D : Type 0} where
  unfoldable pub validity_counts_from : List (Key × ℕ) → List (SyncRow A D) → List (Key × ℕ)
  unfolding count_all
  validity_counts_from counts [] = counts
  validity_counts_from counts (r ∷ rs) = validity_counts_from (count_all r.validity counts) rs

  -- `_validity_counts`
  unfoldable pub validity_counts : List (SyncRow A D) → List (Key × ℕ)
  unfolding validity_counts_from
  validity_counts timeline = validity_counts_from [] timeline

abbrev pub or_else : Option ℤ → ℤ → ℤ
or_else none b = b
or_else (some a) b = if same_int a (pos 0) then b else a

-- `int(fps or metadata or 30)`, where a zero counts as missing.
unfoldable pub pick_fps : Option ℤ → Option ℤ → ℤ
pick_fps fps metadata = or_else fps (or_else metadata (pos 30))

pub record Report (A D : Type 0) : Type 0 where
  pub fps : ℤ
  pub timeline : List (SyncRow A D)
  pub counts : List (Key × ℕ)

-- The arguments, the files, and what is computed from floats: the clock maps and
-- `round(camera_tolerance_ms * 1e6)`, each `none` where it raises.
pub record Inputs (A D : Type 0) : Type 0 where
  pub rows : List (Row A D)
  pub jaka_audit_rows : List (JakaRow A)
  pub rh56_audit_rows : List (Rh56Row A)
  pub camera_tolerance_ms : Float
  pub fps : Option ℤ
  pub metadata_fps : Option ℤ
  pub clock_map : Role → D → Option ℤ
  pub round_tolerance : Float → Option ℤ

abbrev pub period_of : ℤ → ℕ
period_of fps = round_quotient 1_000_000_000 (pos_part fps)

-- The fuel of the grid: the nanoseconds between the ends, and two turns.
abbrev pub turns : ℤ → ℤ → ℕ
turns start end = pos_part (end -ℤ start) + 2

abbrev pub by_role : {X : Type 0} → X → X → Role → X
by_role a b workspace = a
by_role a b wrist = b

module _ {A D : Type 0} where
  abbrev pub last_time : ℤ → List (Row A D) → ℤ
  last_time t [] = t
  last_time t (r ∷ rs) = last_time r.timestamp_ns rs

  unfoldable pub sources_of : Inputs A D → Result Error (Sources A D)
  unfolding jaka_observations rh56_observations camera_observations
  sources_of i =
      let (position, force) = rh56_observations i.rows i.rh56_audit_rows in
      elim (camera_observations (i.clock_map workspace) workspace i.rows) [
        | none ↦ err bad_device_time
        | some first ↦ elim (camera_observations (i.clock_map wrist) wrist i.rows) [
          | none ↦ err bad_device_time
          | some second ↦ elim (i.round_tolerance i.camera_tolerance_ms) [
            | none ↦ err tolerance_overflow
            | some tolerance_ns ↦ ok (record {
              jaka_values = jaka_observations i.rows i.jaka_audit_rows;
              positions = position;
              forces = force;
              cameras = by_role first second;
              tolerance_ns = tolerance_ns;
            })
          ]
        ]
      ]

  abbrev pub report_of : ℤ → Option (List (SyncRow A D)) → Option (Report A D)
  report_of fps none = none
  report_of fps (some timeline) =
      some (record { fps = fps; timeline = timeline; counts = validity_counts timeline })

  -- `synchronize_staging_episode`; `ok none` means that the fuel ran out.
  unfoldable pub synchronize : Inputs A D → Result Error (Option (Report A D))
  unfolding grid sources_of pick_fps validity_counts round_quotient is_finite float_lt
  synchronize i = elim i.rows [
    | [] ↦ err empty_episode
    | first ∷ rest ↦
        let fps = pick_fps i.fps i.metadata_fps in
        let start = first.timestamp_ns in
        let end = last_time first.timestamp_ns rest in
        if not (is_finite i.camera_tolerance_ms) || float_lt i.camera_tolerance_ms zero_float
        then err bad_tolerance
        else if lebℤ fps (pos 0)
        then err bad_fps
        else elim (sources_of i) [
          | err e ↦ err e
          | ok s ↦ ok (report_of fps (grid s (turns start end) start end (period_of fps)))
        ]
  ]
