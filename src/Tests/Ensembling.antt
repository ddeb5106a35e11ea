-- ===== src/Tests/Ensembling.antt =====
-- The ensemble of src/embodiment_core/act_temporal_executor.py with numbers for actions and weights.
use embodied_hand_lab.Prelude.{
  ◌==◌, ℕ, ◌+◌, ◌*◌, ◌-◌, ◌≡◌, refl, true, none, some, List, [], ◌∷◌, arith, ok, length,
}
use embodied_hand_lab.Prelude.Int.{pos}
use embodied_hand_lab.Float.{zero_float, is_finite}
use embodied_hand_lab.Ensemble.Executor
use embodied_hand_lab.Ensemble.Executor.{
  Ensembler, Chunk, TemporalContributor, no_stats, add_prediction, select,
}
use embodied_hand_lab.Ensemble.Buckets.{
  entries_at, keep_from, oldest_tick, add_entry, drop_first, sort, insert, key_le,
}
use embodied_hand_lab.Ensemble.Invariant.{IsValid, add_prediction_returns}
use embodied_hand_lab.Ensemble.Contributors.{IsOrdered, select_lem}
use embodied_hand_lab.Ensemble.Runs
use embodied_hand_lab.Ensemble.Runs.{Call, ensemble_run-IsValid}

-- An ensemble for chunks of two rows, with room for three points.
abbrev empty : Ensembler ℕ
empty = record {
  action_dim = 1;
  chunk_size = 2;
  coefficient = zero_float;
  max_source_horizon = 1;
  max_prediction_age_ticks = some 1;
  capacity = 3;
  by_tick = [];
  entry_count = 0;
  last_action = none;
  last_action_tick = none;
  stats = no_stats;
}

abbrev rows : ℕ → Chunk ℕ
rows base = record { shape = (2, 1); all_finite = true; rows = λ h. base + h }

empty-IsValid : IsValid empty
empty-IsValid = record {
  loose = record { count = refl; dict = tt; timed = tt; accounted = omega arith };
  bounded = omega arith;
}

add_prediction_returns_example :
    (e : Ensembler ℕ) × (add_prediction empty 1 10 5 (rows 100) ≡ ok (e, 2)) × IsValid e
add_prediction_returns_example =
    let (e, q, v, kept, cut, only, all) =
      add_prediction_returns empty 1 10 5 (rows 100) (λ t x. t == 6) empty-IsValid refl in
    (e, q, v)

abbrev weight : ℕ → ℕ → ℕ
weight n i = n - i

abbrev weighted_sum : List (ℕ × ℕ) → ℕ
weighted_sum [] = 0
weighted_sum ((a, w) ∷ rest) = a * w + weighted_sum rest

-- Two queries that overlap at tick 6; the second one drops the oldest of the four points.
abbrev calls : List (Call ℕ)
calls = Runs.add_call 1 10 5 (rows 100) ∷ Runs.add_call 2 20 6 (rows 200) ∷ []

abbrev loaded : Ensembler ℕ
loaded = Runs.run weight weighted_sum empty calls

ensemble_run-IsValid_example : IsValid (Runs.run weight weighted_sum empty calls)
unfolding Executor.new is_finite
ensemble_run-IsValid_example =
    ensemble_run-IsValid weight weighted_sum (pos 1) (pos 2) zero_float none (some (pos 1)) (pos 3)
      empty calls refl

select_lem_example :
    IsOrdered (select weight weighted_sum loaded 6).1.contributors
    × (length (select weight weighted_sum loaded 6).1.contributors
          + (select weight weighted_sum loaded 6).0.stats.prediction_points_age_expired
        ≡ length (entries_at 6 loaded.by_tick) + loaded.stats.prediction_points_age_expired)
select_lem_example =
    let t =
      select_lem weight weighted_sum loaded 6 (λ n t h a. a == 200) ensemble_run-IsValid_example in
    (t.1, t.2)

two_contribute : (select weight weighted_sum loaded 6).1.action ≡ some 402
unfolding select Executor.young entries_at keep_from Runs.run Runs.apply add_prediction
    Executor.trim Executor.drop_oldest oldest_tick add_entry drop_first Executor.too_old sort insert
    key_le
two_contribute = refl
