-- ===== src/Synchronization/Observations.antt =====
-- src/episode_dataset/synchronization.py: the observations of each source, read from the rows of an
-- episode. A row is what JSON holds after `int` and `float`, with `none` for a missing key; the
-- values are of any type `A`, which the code only copies, and the timestamps of a camera of any type
-- `D`, which a fit of floats maps to nanoseconds.
use embodied_hand_lab.Prelude.{
  ◌+◌, ◌-◌, Bool, true, false, ◌&&◌, ◌||◌, Option, none, some, List, [], ◌∷◌, ◌++◌, ◌==◌, leb,
  if◌then◌else◌, length, take, drop, get_elem?,
}
use embodied_hand_lab.Prelude.Int.{ℤ, pos, lebℤ, ◌-ℤ◌, pos_part, neg_part}
use embodied_hand_lab.Synchronization.Bisection.{bisect_right}

-- An entry with its `timestamp_ns`.
pub record Observation (V : Type 0) : Type 0 where
  pub timestamp_ns : ℤ
  pub values : V

-- An entry of `rows[i]["camera"][role]`.
pub record CameraEntry (D : Type 0) : Type 0 where
  pub rgb_frame_number : Option ℤ
  pub rgb_device_timestamp_ms : Option D
  pub host_monotonic_ns : Option ℤ

-- The two roles of a camera.
pub data Role : Type 0 where
  workspace wrist : Role

-- A row of the episode.
pub record Row (A D : Type 0) : Type 0 where
  pub frame_index : ℤ
  pub timestamp_ns : ℤ
  pub observation_state : Option (List A)
  pub observation_force : List A
  pub jaka_observation : Option ℤ
  pub rh56_angle_act : Option ℤ
  pub rh56_force_act : Option ℤ
  pub camera : Role → CameraEntry D

-- A row of the audit of the arm, and one of the hand.
pub record JakaRow (A : Type 0) : Type 0 where
  pub read_host_monotonic_ns : Option ℤ
  pub measured_joint_position_rad : Option (List A)

pub record Rh56Row (A : Type 0) : Type 0 where
  pub angle_timestamp : Option ℤ
  pub angle_act : Option (List A)
  pub force_timestamp : Option ℤ
  pub force_act : Option (List A)

pub record CameraFrame (D : Type 0) : Type 0 where
  pub host_timestamp_ns : ℤ
  pub frame_index : ℤ
  pub frame_number : ℤ
  pub device_timestamp_ms : D

module _ {V : Type 0} where
  -- `sorted(values, key=timestamp_ns)`, which is stable.
  unfoldable pub insert : Observation V → List (Observation V) → List (Observation V)
  insert x [] = x ∷ []
  insert x (y ∷ ys) = if lebℤ x.timestamp_ns y.timestamp_ns then x ∷ y ∷ ys else y ∷ insert x ys

  unfoldable pub sort : List (Observation V) → List (Observation V)
  unfolding insert
  sort [] = []
  sort (x ∷ xs) = insert x (sort xs)

  abbrev pub times : List (Observation V) → List ℤ
  times [] = []
  times (x ∷ xs) = x.timestamp_ns ∷ times xs

  -- `_latest`: `index < 0` is no place in front of the list.
  unfoldable pub latest : List (Observation V) → ℤ → Option (Observation V)
  unfolding bisect_right
  latest values timestamp_ns =
      let place = bisect_right (times values) timestamp_ns in
      if place == 0 then none else get_elem? values (place - 1)

  -- The observation, if both of its parts are there.
  abbrev pub observed : Option ℤ → Option V → List (Observation V)
  observed (some t) (some v) = record { timestamp_ns = t; values = v } ∷ []
  observed none v = []
  observed (some t) none = []

abbrev pub is_empty {ℓ} : {X : Type ℓ} → List X → Bool
is_empty [] = true
is_empty (x ∷ xs) = false

module _ {A : Type 0} where
  unfoldable pub jaka_audit : List (JakaRow A) → List (Observation (List A))
  jaka_audit [] = []
  jaka_audit (r ∷ rs) =
      observed r.read_host_monotonic_ns r.measured_joint_position_rad ++ jaka_audit rs

  unfoldable pub angle_audit : List (Rh56Row A) → List (Observation (List A))
  angle_audit [] = []
  angle_audit (r ∷ rs) = observed r.angle_timestamp r.angle_act ++ angle_audit rs

  unfoldable pub force_audit : List (Rh56Row A) → List (Observation (List A))
  force_audit [] = []
  force_audit (r ∷ rs) = observed r.force_timestamp r.force_act ++ force_audit rs

module _ {A : Type 0} where
  -- The first six numbers of a state with at least six.
  abbrev pub arm_part : Option (List A) → Option (List A)
  arm_part none = none
  arm_part (some s) = if leb 6 (length s) then some (take 6 s) else none

  -- `state[6:12]`
  abbrev pub hand_part : Option (List A) → Option (List A)
  hand_part none = none
  hand_part (some s) = some (take 6 (drop 6 s))

abbrev pub time_or : Option ℤ → ℤ → ℤ
time_or none t = t
time_or (some s) t = s

module _ {A D : Type 0} where
  unfoldable pub jaka_rows : List (Row A D) → List (Observation (List A))
  jaka_rows [] = []
  jaka_rows (r ∷ rs) =
      observed (some (time_or r.jaka_observation r.timestamp_ns)) (arm_part r.observation_state)
      ++ jaka_rows rs

  unfoldable pub angle_rows : List (Row A D) → List (Observation (List A))
  angle_rows [] = []
  angle_rows (r ∷ rs) = observed r.rh56_angle_act (hand_part r.observation_state) ++ angle_rows rs

  unfoldable pub force_rows : List (Row A D) → List (Observation (List A))
  force_rows [] = []
  force_rows (r ∷ rs) = observed r.rh56_force_act (some r.observation_force) ++ force_rows rs

  -- `_jaka_observations`, which does not sort what it takes from the rows.
  unfoldable pub jaka_observations : List (Row A D) → List (JakaRow A) → List (Observation (List A))
  unfolding jaka_audit jaka_rows sort
  jaka_observations rows audit =
      let result = jaka_audit audit in if is_empty result then jaka_rows rows else sort result

  -- `_rh56_observations`
  unfoldable pub rh56_observations :
      List (Row A D) → List (Rh56Row A) → List (Observation (List A)) × List (Observation (List A))
  unfolding angle_audit force_audit angle_rows force_rows sort
  rh56_observations rows audit =
      let position = angle_audit audit in
      let force = force_audit audit in
      if is_empty position && is_empty force
      then (sort (angle_rows rows), sort (force_rows rows))
      else (sort position, sort force)

-- `key in seen`
abbrev pub same_int : ℤ → ℤ → Bool
same_int a b = pos_part a + neg_part b == pos_part b + neg_part a

abbrev pub is_seen : ℤ → ℤ → List (ℤ × ℤ) → Bool
is_seen n t [] = false
is_seen n t ((m, u) ∷ rest) = (same_int n m && same_int t u) || is_seen n t rest

module _ {D : Type 0} where
  -- The numbers of an entry that has all three.
  abbrev pub entry_of : CameraEntry D → Option (ℤ × D × ℤ)
  entry_of c = elim c.rgb_frame_number [
    | none ↦ none
    | some n ↦ elim c.rgb_device_timestamp_ms [
      | none ↦ none
      | some d ↦ elim c.host_monotonic_ns [ none ↦ none | some t ↦ some (n, d, t) ]
    ]
  ]

  -- What a turn of the loop of `_camera_observations` appends, given the keys that were seen: nothing
  -- for an entry that is not whole, and nothing for a key that was seen. `mapped` is
  -- `int(slope * device_ms + intercept)` with the clock map of the camera, and `none` where that is no
  -- finite number and raises; then the loop raises.
  unfoldable pub camera_turn :
      (D → Option ℤ)
      → List (ℤ × ℤ)
      → ℤ
      → Option (ℤ × D × ℤ)
      → Option (List (ℤ × ℤ) × List (Observation (CameraFrame D)))
  camera_turn mapped seen frame_index none = some (seen, [])
  camera_turn mapped seen frame_index (some (n, d, t)) =
      if is_seen n t seen then some (seen, []) else elim (mapped d) [
        | none ↦ none
        | some ns ↦ some (
          (n, t) ∷ seen,
          record {
            timestamp_ns = ns;
            values = record {
              host_timestamp_ns = t;
              frame_index = frame_index;
              frame_number = n;
              device_timestamp_ms = d;
            };
          }
              ∷ [],
        )
      ]

module _ {A D : Type 0} where
  -- The loop, with the keys `seen` so far.
  unfoldable pub camera_loop :
      (D → Option ℤ)
      → Role
      → List (ℤ × ℤ)
      → List (Row A D)
      → Option (List (Observation (CameraFrame D)))
  unfolding camera_turn
  camera_loop mapped role seen [] = some []
  camera_loop mapped role seen (r ∷ rs) =
      elim (camera_turn mapped seen r.frame_index (entry_of (r.camera role))) [
        | none ↦ none
        | some t ↦ elim (camera_loop mapped role t.0 rs) [
          | none ↦ none
          | some frames ↦ some (t.1 ++ frames)
        ]
      ]

  -- `_camera_observations`
  unfoldable pub camera_observations :
      (D → Option ℤ) → Role → List (Row A D) → Option (List (Observation (CameraFrame D)))
  unfolding camera_loop sort
  camera_observations mapped role rows = elim (camera_loop mapped role [] rows) [
    | none ↦ none
    | some frames ↦ some (sort frames)
  ]

-- What `_timed_value` and `_select_camera` return; a key that is missing is `none`.
pub record TimedValue (V : Type 0) : Type 0 where
  pub values : Option V
  pub timestamp_ns : Option ℤ
  pub age_ns : Option ℤ
  pub valid : Bool

unfoldable pub timed_value : {V : Type 0} → Option (Observation V) → ℤ → TimedValue V
timed_value none timestamp_ns = record {
  values = none;
  timestamp_ns = none;
  age_ns = none;
  valid = false;
}
timed_value (some o) timestamp_ns = record {
  values = some o.values;
  timestamp_ns = some o.timestamp_ns;
  age_ns = some (timestamp_ns -ℤ o.timestamp_ns);
  valid = lebℤ o.timestamp_ns timestamp_ns;
}

pub record CameraValue (D : Type 0) : Type 0 where
  pub frame_index : Option ℤ
  pub frame_number : Option ℤ
  pub device_timestamp_ms : Option D
  pub mapped_host_timestamp_ns : Option ℤ
  pub age_ns : Option ℤ
  pub valid : Bool

-- The part of `_select_camera` after the search.
unfoldable pub camera_value :
    {D : Type 0} → Option (Observation (CameraFrame D)) → ℤ → ℤ → CameraValue D
camera_value none timestamp_ns tolerance_ns = record {
  frame_index = none;
  frame_number = none;
  device_timestamp_ms = none;
  mapped_host_timestamp_ns = none;
  age_ns = none;
  valid = false;
}
camera_value (some o) timestamp_ns tolerance_ns =
    let age = timestamp_ns -ℤ o.timestamp_ns in
    let valid = lebℤ (pos 0) age && lebℤ age tolerance_ns in
    record {
      frame_index = if valid then some o.values.frame_index else none;
      frame_number = if valid then some o.values.frame_number else none;
      device_timestamp_ms = if valid then some o.values.device_timestamp_ms else none;
      mapped_host_timestamp_ns = if valid then some o.timestamp_ns else none;
      age_ns = some age;
      valid = valid;
    }

unfoldable pub select_camera :
    {D : Type 0} → List (Observation (CameraFrame D)) → ℤ → ℤ → CameraValue D
unfolding latest camera_value
select_camera values timestamp_ns tolerance_ns =
    camera_value (latest values timestamp_ns) timestamp_ns tolerance_ns
