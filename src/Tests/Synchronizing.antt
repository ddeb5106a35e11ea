-- ===== src/Tests/Synchronizing.antt =====
-- A small episode for src/episode_dataset/synchronization.py, at 100 rows a second.
use embodied_hand_lab.Prelude.{ℕ, ◌≡◌, refl, some, none, List, [], ◌∷◌, arith}
use embodied_hand_lab.Prelude.Int.{ℤ, pos, negsuc}
use embodied_hand_lab.Float.{finite}
use embodied_hand_lab.Synchronization.Observations.{Observation, CameraEntry, Row, latest, sort}
use embodied_hand_lab.Synchronization.Selection.{
  last_before, Newest, latest-eq-last_before, latest-Newest,
}
use embodied_hand_lab.Synchronization.Report.{Inputs, validity_counts, row_at, Sources, jaka}
use embodied_hand_lab.Synchronization.Counts.{count_of, total, validity_counts-eq-total}

abbrev at : ℤ → ℕ → Observation ℕ
at t v = record { timestamp_ns = t; values = v }

abbrev arm : List (Observation ℕ)
arm = at (negsuc 4) 1 ∷ at (pos 10) 2 ∷ at (pos 10) 3 ∷ at (pos 30) 4 ∷ []

-- Of two observations at the same time the later entry is the latest.
latest_of_two : latest arm (pos 12) ≡ some (at (pos 10) 3)
unfolding latest
latest_of_two = refl

latest-eq-last_before_example : latest arm (pos 12) ≡ last_before none arm (pos 12)
latest-eq-last_before_example = latest-eq-last_before arm (pos 12) (omega arith)

latest-Newest_example : Newest (sort arm) (pos 12) (latest (sort arm) (pos 12))
latest-Newest_example = latest-Newest arm (pos 12)

abbrev frame : ℤ → CameraEntry ℕ
frame n = record {
  rgb_frame_number = some n;
  rgb_device_timestamp_ms = some 7;
  host_monotonic_ns = some (pos 9);
}

abbrev row : ℕ → Row ℕ ℕ
row t = record {
  frame_index = pos 0;
  timestamp_ns = pos t;
  observation_state = some (1 ∷ 2 ∷ 3 ∷ 4 ∷ 5 ∷ 6 ∷ 7 ∷ []);
  observation_force = 8 ∷ [];
  jaka_observation = none;
  rh56_angle_act = some (pos t);
  rh56_force_act = none;
  camera = λ r. frame (pos t);
}

abbrev inputs : Inputs ℕ ℕ
inputs = record {
  rows = row 100 ∷ row 15_000_000 ∷ row 25_000_000 ∷ [];
  jaka_audit_rows = [];
  rh56_audit_rows = [];
  camera_tolerance_ms = finite (pos 5);
  fps = some (pos 0);
  metadata_fps = some (pos 100);
  clock_map = λ r d. some (pos d);
  round_tolerance = λ t. some (pos 20_000_000);
}

abbrev sources : Sources ℕ ℕ
sources = record {
  jaka_values = [];
  positions = [];
  forces = [];
  cameras = λ r. [];
  tolerance_ns = pos 0;
}

validity_counts-eq-total_example :
    count_of jaka (validity_counts (row_at sources (pos 1) ∷ row_at sources (pos 2) ∷ []))
    ≡ total jaka (row_at sources (pos 1) ∷ row_at sources (pos 2) ∷ [])
validity_counts-eq-total_example =
    validity_counts-eq-total jaka (row_at sources (pos 1) ∷ row_at sources (pos 2) ∷ [])
