-- ===== src/Ensemble/Invariant.antt =====
-- src/embodiment_core/act_temporal_executor.py: every call keeps the ensemble well formed, and adding a
-- prediction never raises on a good chunk.
use embodied_hand_lab.Prelude.{
  ℕ, zero, suc, ◌+◌, ◌-◌, ◌≤◌, ◌<◌, ◌≡◌, ◌⊎◌, Bool, true, ◌&&◌, ok, arith, ◌==◌, ◌∙◌, leb, refl,
  inl, inr, Bool-cases, leb→le,
}
use embodied_hand_lab.Ensemble.Buckets.{TemporalPrediction, Entry, add_entry, total, IsDict, Every}
use embodied_hand_lab.Ensemble.Contents.{stored, points, stored-add_points, trim-Drops}
use embodied_hand_lab.Ensemble.Counting.{
  total-add_entry, add_entry-IsDict, add_entry-Every, drop_oldest_first,
}
use embodied_hand_lab.Ensemble.Executor.{
  Ensembler, Chunk, drop_oldest, trim, add_points, add_prediction,
}

module _ {A : Type 0} where
  -- An entry stands under the tick that its row is for, and its row is within the horizon.
  abbrev pub Timed : ℕ → ℕ → Entry A → Type 0
  Timed limit tick (p, h) = (tick ≡ p.query_command_tick + h) × (h ≤ limit)

  -- The points that the counters say are gone.
  abbrev pub lost : Ensembler A → ℕ
  lost e =
      e.stats.prediction_points_capacity_dropped + e.stats.prediction_points_expired
      + e.stats.prediction_points_age_expired

  -- The counter counts the entries, the dictionary is one, every entry stands under its tick, and no
  -- point is counted twice.
  pub record IsLoose (e : Ensembler A) : Type 0 where
    pub count : e.entry_count ≡ total e.by_tick
    pub dict : IsDict e.by_tick
    pub timed : Every (Timed e.max_source_horizon) e.by_tick
    pub accounted : e.entry_count + lost e ≤ e.stats.prediction_points_added

  pub record IsValid (e : Ensembler A) : Type 0 where
    pub loose : IsLoose e
    pub bounded : e.entry_count ≤ e.capacity

  -- What cutting an ensemble to its capacity does.
  pub record Trimmed (e e' : Ensembler A) : Type 0 where
    pub valid : IsValid e'
    pub dropped :
        e'.entry_count + e'.stats.prediction_points_capacity_dropped
        ≡ e.entry_count + e.stats.prediction_points_capacity_dropped
    pub only_excess : (e'.entry_count ≡ e.entry_count) ⊎ (e'.entry_count ≡ e.capacity)
    pub same_capacity : e'.capacity ≡ e.capacity

  drop_oldest-IsLoose :
      (e : Ensembler A)
      → IsLoose e
      → 0 < e.entry_count
      → (e' : Ensembler A) × (drop_oldest e ≡ ok e')
        × IsLoose e'
        × (e.entry_count ≡ e'.entry_count + 1)
        × (e'.capacity ≡ e.capacity)
        × (e'.stats.prediction_points_capacity_dropped
            ≡ e.stats.prediction_points_capacity_dropped + 1)
  unfolding drop_oldest
  drop_oldest-IsLoose e h n =
      let (t, d', o, q, m, i, w) =
        drop_oldest_first (Timed e.max_source_horizon) e.by_tick h.dict h.timed
          (omega (arith, h.count)) in
      (
        record e {
          by_tick = d';
          entry_count = e.entry_count - 1;
          stats = record e.stats {
            prediction_points_capacity_dropped = e.stats.prediction_points_capacity_dropped + 1;
          };
        },
        rw (drop_oldest, o) (rw q refl),
        record {
          count = omega (arith, h.count);
          dict = i;
          timed = w;
          accounted = omega (arith, h.accounted);
        },
        omega arith,
        refl,
        refl,
      )

  excess :
      (e e1 e2 : Ensembler A)
      → e.capacity < e.entry_count
      → e.entry_count ≡ e1.entry_count + 1
      → e1.capacity ≡ e.capacity
      → Trimmed e1 e2
      → (e2.entry_count ≡ e.entry_count) ⊎ (e2.entry_count ≡ e.capacity)
  excess e e1 e2 large less same t = elim t.only_excess [
    | inl k ↦
        let fits = t.valid.bounded in
        let same' = t.same_capacity in inr (omega (arith, k, fits, same'))
    | inr k ↦ inr (k ∙ same)
  ]

  trim-Trimmed :
      (n : ℕ) (e : Ensembler A)
      → IsLoose e
      → e.entry_count ≤ n + e.capacity
      → (e' : Ensembler A) × (trim n e ≡ ok e') × Trimmed e e'
  unfolding trim
  trim-Trimmed zero e h k = (
    e,
    refl,
    record {
      valid = record { loose = h; bounded = omega (arith, k) };
      dropped = refl;
      only_excess = inl refl;
      same_capacity = refl;
    },
  )
  trim-Trimmed (suc n) e h k = elim (Bool-cases (leb e.entry_count e.capacity)) [
    | inl small ↦ (
      e,
      rw small refl,
      record {
        valid = record { loose = h; bounded = leb→le e.entry_count e.capacity small };
        dropped = refl;
        only_excess = inl refl;
        same_capacity = refl;
      },
    )
    | inr large ↦
        let (e1, q, h1, less, same, more) = drop_oldest-IsLoose e h (ground arith) in
        let (e2, q2, t) = trim-Trimmed n e1 h1 (omega arith) in
        (
          e2,
          rw large (rw q q2),
          record {
            valid = t.valid;
            dropped = omega (arith, t.dropped);
            only_excess = excess e e1 e2 (ground arith) less same t;
            same_capacity = t.same_capacity ∙ same;
          },
        )
  ]

  -- What the loop of `add_prediction` does in `n` turns.
  record Filled (n : ℕ) (e e' : Ensembler A) : Type 0 where
    count : e'.entry_count ≡ total e'.by_tick
    dict : IsDict e'.by_tick
    timed : Every (Timed e.max_source_horizon) e'.by_tick
    grown : e'.entry_count ≡ e.entry_count + n
    same_horizon : e'.max_source_horizon ≡ e.max_source_horizon
    same_capacity : e'.capacity ≡ e.capacity

  add_points-Filled :
      (n horizon : ℕ) (p : TemporalPrediction A) (e : Ensembler A)
      → horizon + n ≤ e.max_source_horizon + 1
      → e.entry_count ≡ total e.by_tick
      → IsDict e.by_tick
      → Every (Timed e.max_source_horizon) e.by_tick
      → Filled n e (add_points n horizon p e)
  unfolding add_points
  add_points-Filled zero horizon p e within c d t = record {
    count = c;
    dict = d;
    timed = t;
    grown = omega arith;
    same_horizon = refl;
    same_capacity = refl;
  }
  add_points-Filled (suc n) horizon p e within c d t =
      let tick = p.query_command_tick + horizon in
      let d1 = add_entry tick (p, horizon) e.by_tick in
      let e1 = record e { by_tick = d1; entry_count = e.entry_count + 1 } in
      let f =
        add_points-Filled n (suc horizon) p e1 (omega (arith, within))
          (omega (arith, c, total-add_entry tick (p, horizon) e.by_tick))
          (add_entry-IsDict tick (p, horizon) e.by_tick d)
          (add_entry-Every (Timed e.max_source_horizon) tick (p, horizon) e.by_tick
            (refl, omega (arith, within)) t) in
      record {
        count = f.count;
        dict = f.dict;
        timed = f.timed;
        grown = omega (arith, f.grown);
        same_horizon = f.same_horizon;
        same_capacity = f.same_capacity;
      }

  -- The test of `add_prediction`.
  abbrev pub fits : Ensembler A → Chunk A → Bool
  fits e chunk =
      chunk.shape.0 == e.chunk_size && (chunk.shape.1 == e.action_dim && chunk.all_finite)

  -- A chunk of the right shape with finite numbers is added to a valid ensemble without an exception,
  -- as `max_source_horizon + 1` points, row `h` of the chunk under the tick `h` ticks after the query's.
  -- The new ensemble is valid. By the number that passes any test of tick and entry: it holds only
  -- old entries and these points, and what it does not hold of them is counted as dropped. Some are
  -- dropped only so that exactly `capacity` remain.
  pub add_prediction_returns :
      (e : Ensembler A) (query_id timestamp tick : ℕ) (chunk : Chunk A) (f : ℕ → Entry A → Bool)
      → IsValid e
      → fits e chunk ≡ true
      → let n = e.max_source_horizon + 1 in
        let p : TemporalPrediction A = record {
          query_id = query_id;
          query_timestamp_ns = timestamp;
          query_command_tick = tick;
          chunk = chunk.rows;
        } in
        (e' : Ensembler A) × (add_prediction e query_id timestamp tick chunk ≡ ok (e', n))
        × IsValid e'
        × (e'.entry_count + e'.stats.prediction_points_capacity_dropped
            ≡ e.entry_count + n + e.stats.prediction_points_capacity_dropped)
        × ((e'.entry_count ≡ e.entry_count + n) ⊎ (e'.entry_count ≡ e.capacity))
        × (stored f e'.by_tick ≤ stored f e.by_tick + points f n 0 p)
        × (stored f e.by_tick + points f n 0 p + e.stats.prediction_points_capacity_dropped
            ≤ stored f e'.by_tick + e'.stats.prediction_points_capacity_dropped)
  unfolding add_prediction
  add_prediction_returns e query_id timestamp tick chunk test h good =
      let n = e.max_source_horizon + 1 in
      let p : TemporalPrediction A = record {
        query_id = query_id;
        query_timestamp_ns = timestamp;
        query_command_tick = tick;
        chunk = chunk.rows;
      } in
      let added = add_points n 0 p e in
      let f = add_points-Filled n 0 p e (omega arith) h.loose.count h.loose.dict h.loose.timed in
      let counted = record added {
        stats = record e.stats {
          predictions_added = e.stats.predictions_added + 1;
          prediction_points_added = e.stats.prediction_points_added + n;
        };
      } in
      let loose : IsLoose counted = record {
        count = f.count;
        dict = f.dict;
        timed = rw f.same_horizon f.timed;
        accounted = omega (arith, f.grown, h.loose.accounted);
      } in
      let (e', q, t) = trim-Trimmed counted.entry_count counted loose (omega arith) in
      let more = stored-add_points test n 0 p e in
      let less = trim-Drops test counted.entry_count counted e' q in
      (
        e',
        rw good (rw q refl),
        t.valid,
        omega (arith, t.dropped, f.grown),
        elim t.only_excess [ inl k ↦ inl (k ∙ f.grown) | inr k ↦ inr (k ∙ f.same_capacity) ],
        omega arith,
        omega arith,
      )
