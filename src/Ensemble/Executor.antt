-- ===== src/Ensemble/Executor.antt =====
-- `AbsoluteTimeTemporalEnsembler` of src/embodiment_core/act_temporal_executor.py. A method that
-- mutates the ensemble returns the new one.
use embodied_hand_lab.Prelude.{
  ℕ, zero, suc, ◌+◌, ◌-◌, Bool, true, false, not, ◌&&◌, Option, none, some, List, [], ◌∷◌, map,
  Result, ok, err, if◌then◌else◌, ◌==◌, leb, length,
}
use embodied_hand_lab.Prelude.Int.{ℤ, pos, lebℤ, ltbℤ, pos_part, sub_ℕ}
use embodied_hand_lab.Float.{Float, is_finite}
use embodied_hand_lab.Ensemble.Buckets.{
  TemporalPrediction, Entry, Buckets, add_entry, oldest_tick, drop_first, expired, keep_from,
  entries_at, without, sort,
}

pub record TemporalContributor (A W : Type 0) : Type 0 where
  pub query_id : ℕ
  pub query_timestamp_ns : ℕ
  pub query_command_tick : ℕ
  pub source_horizon : ℕ
  pub target_command_tick : ℕ
  pub predicted_action : A
  pub ensemble_weight : W

pub record TemporalSelection (A W : Type 0) : Type 0 where
  pub command_tick : ℕ
  pub action : Option A
  pub contributors : List (TemporalContributor A W)
  pub fallback_used : Bool
  pub fallback_action_age_ticks : Option ℤ

-- The counters of `_stats`.
pub record Stats : Type 0 where
  pub predictions_added : ℕ
  pub prediction_points_added : ℕ
  pub prediction_points_capacity_dropped : ℕ
  pub prediction_points_expired : ℕ
  pub prediction_points_age_expired : ℕ
  pub selected_ticks : ℕ
  pub fallback_ticks : ℕ

pub record Ensembler (A : Type 0) : Type 0 where
  pub action_dim : ℕ
  pub chunk_size : ℕ
  pub coefficient : Float
  pub max_source_horizon : ℕ
  pub max_prediction_age_ticks : Option ℕ
  pub capacity : ℕ
  pub by_tick : Buckets A
  pub entry_count : ℕ
  pub last_action : Option A
  pub last_action_tick : Option ℕ
  pub stats : Stats

-- The ValueErrors of the constructor and of `add_prediction`, and what a dictionary raises.
pub data Error : Type 0 where
  bad_shape bad_coefficient bad_horizon bad_age bad_capacity bad_chunk empty_dictionary : Error

abbrev pub no_stats : Stats
no_stats = record {
  predictions_added = 0;
  prediction_points_added = 0;
  prediction_points_capacity_dropped = 0;
  prediction_points_expired = 0;
  prediction_points_age_expired = 0;
  selected_ticks = 0;
  fallback_ticks = 0;
}

abbrev horizon_ok : Option ℤ → ℤ → Bool
horizon_ok none chunk_size = true
horizon_ok (some h) chunk_size = lebℤ (pos 0) h && ltbℤ h chunk_size

abbrev age_ok : Option ℤ → Bool
age_ok none = true
age_ok (some a) = lebℤ (pos 0) a

abbrev source_horizon_of : Option ℤ → ℕ → ℕ
source_horizon_of none chunk_size = chunk_size - 1
source_horizon_of (some h) chunk_size = pos_part h

abbrev age_of : Option ℤ → Option ℕ
age_of none = none
age_of (some a) = some (pos_part a)

-- `add_prediction` is given an array by its shape, whether it is finite, and its rows.
pub record Chunk (A : Type 0) : Type 0 where
  pub shape : ℕ × ℕ
  pub all_finite : Bool
  pub rows : ℕ → A

module _ {A : Type 0} where
  -- The constructor.
  unfoldable pub new : ℤ → ℤ → Float → Option ℤ → Option ℤ → ℤ → Result Error (Ensembler A)
  new action_dim chunk_size coefficient horizon age capacity =
      if not (lebℤ (pos 1) action_dim && lebℤ (pos 1) chunk_size)
      then err bad_shape
      else if not (is_finite coefficient)
      then err bad_coefficient
      else if not (horizon_ok horizon chunk_size)
      then err bad_horizon
      else if not (age_ok age)
      then err bad_age
      else if not (lebℤ (pos 1) capacity)
      then err bad_capacity
      else ok (record {
        action_dim = pos_part action_dim;
        chunk_size = pos_part chunk_size;
        coefficient = coefficient;
        max_source_horizon = source_horizon_of horizon (pos_part chunk_size);
        max_prediction_age_ticks = age_of age;
        capacity = pos_part capacity;
        by_tick = [];
        entry_count = 0;
        last_action = none;
        last_action_tick = none;
        stats = no_stats;
      })

  unfoldable pub reset : Ensembler A → Ensembler A
  reset e = record e { by_tick = []; entry_count = 0; last_action = none; last_action_tick = none }

  -- One turn of the loop of `_trim_capacity`.
  unfoldable pub drop_oldest : Ensembler A → Result Error (Ensembler A)
  drop_oldest e = elim (oldest_tick e.by_tick) [
    | none ↦ err empty_dictionary
    | some tick ↦ elim (drop_first tick e.by_tick) [
      | none ↦ err empty_dictionary
      | some by_tick ↦ ok (record e {
        by_tick = by_tick;
        entry_count = e.entry_count - 1;
        stats = record e.stats {
          prediction_points_capacity_dropped = e.stats.prediction_points_capacity_dropped + 1;
        };
      })
    ]
  ]

  -- `_trim_capacity`, on fuel: a turn takes one entry away, so `entry_count` turns are enough.
  unfoldable pub trim : ℕ → Ensembler A → Result Error (Ensembler A)
  trim zero e = ok e
  trim (suc n) e =
      if leb e.entry_count e.capacity
      then ok e
      else elim (drop_oldest e) [ err x ↦ err x | ok e' ↦ trim n e' ]

  -- The loop of `add_prediction`, from `horizon` on.
  unfoldable pub add_points : ℕ → ℕ → TemporalPrediction A → Ensembler A → Ensembler A
  add_points zero horizon p e = e
  add_points (suc n) horizon p e = add_points n (suc horizon) p (record e {
    by_tick = add_entry (p.query_command_tick + horizon) (p, horizon) e.by_tick;
    entry_count = e.entry_count + 1;
  })

  -- `add_prediction`
  unfoldable pub add_prediction : Ensembler A → ℕ → ℕ → ℕ → Chunk A → Result Error (Ensembler A × ℕ)
  unfolding add_points
  add_prediction e query_id timestamp tick chunk =
      let n = e.max_source_horizon + 1 in
      let p : TemporalPrediction A = record {
        query_id = query_id;
        query_timestamp_ns = timestamp;
        query_command_tick = tick;
        chunk = chunk.rows;
      } in
      let added = add_points n 0 p e in
      let counted = record added {
        stats = record e.stats {
          predictions_added = e.stats.predictions_added + 1;
          prediction_points_added = e.stats.prediction_points_added + n;
        };
      } in
      if not (chunk.shape.0 == e.chunk_size && (chunk.shape.1 == e.action_dim && chunk.all_finite))
      then err bad_chunk
      else elim (trim counted.entry_count counted) [ err x ↦ err x | ok e' ↦ ok (e', n) ]

  -- `_expire_before`
  unfoldable pub expire_before : Ensembler A → ℕ → Ensembler A
  expire_before e tick = record e {
    by_tick = keep_from tick e.by_tick;
    entry_count = e.entry_count - expired tick e.by_tick;
    stats = record e.stats {
      prediction_points_expired = e.stats.prediction_points_expired + expired tick e.by_tick;
    };
  }

  -- The age test of `select`, `age > self.max_prediction_age_ticks`.
  unfoldable pub too_old : Option ℕ → ℕ → Entry A → Bool
  too_old none tick entry = false
  too_old (some limit) tick entry = ltbℤ (pos limit) (sub_ℕ tick entry.0.query_command_tick)

  -- The candidates that are young enough, and how many are not.
  unfoldable pub young : Option ℕ → ℕ → List (Entry A) → List (Entry A)
  young limit tick [] = []
  young limit tick (e ∷ es) =
      if too_old limit tick e then young limit tick es else e ∷ young limit tick es

  unfoldable pub count_old : Option ℕ → ℕ → List (Entry A) → ℕ
  count_old limit tick [] = 0
  count_old limit tick (e ∷ es) =
      if too_old limit tick e then suc (count_old limit tick es) else count_old limit tick es

-- `weight n i` is the weight that numpy gives candidate `i` of `n`, and `average` is `np.average`.
module _ {A W : Type 0} (weight : ℕ → ℕ → W) (average : List (A × W) → A) where
  -- The tuple of contributors, from candidate `i` of `n` on.
  unfoldable pub contribute : ℕ → ℕ → ℕ → List (Entry A) → List (TemporalContributor A W)
  contribute tick n i [] = []
  contribute tick n i ((p, horizon) ∷ rest) =
      record {
        query_id = p.query_id;
        query_timestamp_ns = p.query_timestamp_ns;
        query_command_tick = p.query_command_tick;
        source_horizon = horizon;
        target_command_tick = tick;
        predicted_action = p.chunk horizon;
        ensemble_weight = weight n i;
      }
      ∷ contribute tick n (suc i) rest

  -- `select`, for the candidates that are young enough.
  unfoldable pub choose : Ensembler A → ℕ → List (Entry A) → Ensembler A × TemporalSelection A W
  unfolding contribute
  choose e tick [] = (
    record e { stats = record e.stats { fallback_ticks = e.stats.fallback_ticks + 1 } },
    record {
      command_tick = tick;
      action = e.last_action;
      contributors = [];
      fallback_used = true;
      fallback_action_age_ticks = elim e.last_action_tick [
        | none ↦ none
        | some t ↦ some (sub_ℕ tick t)
      ];
    },
  )
  choose e tick (c ∷ cs) =
      let contributors = contribute tick (length (c ∷ cs)) 0 (sort (c ∷ cs)) in
      let action = average (map (λ x. (x.predicted_action, x.ensemble_weight)) contributors) in
      (
        record e {
          last_action = some action;
          last_action_tick = some tick;
          stats = record e.stats { selected_ticks = e.stats.selected_ticks + 1 };
        },
        record {
          command_tick = tick;
          action = some action;
          contributors = contributors;
          fallback_used = false;
          fallback_action_age_ticks = none;
        },
      )

  -- `select`
  unfoldable pub select : Ensembler A → ℕ → Ensembler A × TemporalSelection A W
  unfolding expire_before choose
  select e tick =
      let kept = expire_before e tick in
      let raw = entries_at tick kept.by_tick in
      let popped = record kept {
        by_tick = without tick kept.by_tick;
        entry_count = kept.entry_count - length raw;
        stats = record kept.stats {
          prediction_points_age_expired =
              kept.stats.prediction_points_age_expired
              + count_old e.max_prediction_age_ticks tick raw;
        };
      } in
      choose popped tick (young e.max_prediction_age_ticks tick raw)
