-- ===== src/Ensemble/Contributors.antt =====
-- What `select` of src/embodiment_core/act_temporal_executor.py lets contribute to a command.
use embodied_hand_lab.Prelude.{
  ℕ, suc, ◌+◌, ◌-◌, ◌≤◌, ◌<◌, ◌≡◌, ◌⊎◌, ◌∙◌, ◌↔◌, ap, sym, true, List, [], ◌∷◌, arith, length, refl,
  Option, All, ◌&&◌,
}
use embodied_hand_lab.Ensemble.Buckets.{Entry, entries_at, without, key_le, sort, IsSorted}
use embodied_hand_lab.Ensemble.Counting.{
  keep_from-From, without-total, without-IsDict, without-Every, without-From, entries_at-All, From,
}
use embodied_hand_lab.Ensemble.Executor.{
  Ensembler, TemporalContributor, TemporalSelection, expire_before, select, choose, contribute,
  young, count_old,
}
use embodied_hand_lab.Ensemble.Contents.{
  RowTest, contributing, passing, recent, on_entry, choose-passing, young-passing,
}
use embodied_hand_lab.Ensemble.Invariant.{Timed, IsValid}
use embodied_hand_lab.Ensemble.Selection.{
  Due, IsYoung, sort-IsSorted, length-sort, sort-All, young-All, young-count_old,
  entries_at-keep_from, expire_before-IsValid,
}

module _ {A W : Type 0} where
  -- The older query comes first, and of two from one tick the one with the smaller number.
  abbrev pub Before : TemporalContributor A W → TemporalContributor A W → Type 0
  Before a b =
      (a.query_command_tick < b.query_command_tick)
      ⊎ ((a.query_command_tick ≡ b.query_command_tick) × (a.query_id ≤ b.query_id))

  abbrev pub IsOrdered : List (TemporalContributor A W) → Type 0
  IsOrdered [] = Unit
  IsOrdered (a ∷ []) = Unit
  IsOrdered (a ∷ b ∷ cs) = Before a b × IsOrdered (b ∷ cs)

  -- A contributor is a row for exactly the tick, within the horizon, of a prediction young enough.
  abbrev pub Contributes : ℕ → Option ℕ → ℕ → TemporalContributor A W → Type 0
  Contributes horizon limit tick c =
      (c.query_command_tick + c.source_horizon ≡ tick)
      × (c.target_command_tick ≡ tick)
      × (c.source_horizon ≤ horizon)
      × IsYoung limit tick c.query_command_tick

  -- The fallback is used exactly without contributors, and then the last action is repeated.
  abbrev pub FallsBack : Ensembler A → TemporalSelection A W → Type 0
  FallsBack e s =
      ((s.fallback_used ≡ true) ↔ (s.contributors ≡ []))
      × (s.fallback_used ≡ true → s.action ≡ e.last_action)

module _ {A W : Type 0} (weight : ℕ → ℕ → W) (average : List (A × W) → A) where
  contribute-All :
      (horizon : ℕ) (limit : Option ℕ) (tick n i : ℕ) (es : List (Entry A))
      → All (Due horizon limit tick) es
      → All (Contributes horizon limit tick) (contribute weight average tick n i es)
  unfolding contribute
  contribute-All horizon limit tick n i [] h = tt
  contribute-All horizon limit tick n i (e ∷ es) h =
      ((sym h.0.0.0, refl, h.0.0.1, h.0.1), contribute-All horizon limit tick n (suc i) es h.1)

  contribute-IsOrdered :
      (tick n i : ℕ) (es : List (Entry A))
      → IsSorted es
      → IsOrdered (contribute weight average tick n i es)
  unfolding contribute key_le
  contribute-IsOrdered tick n i [] h = tt
  contribute-IsOrdered tick n i (e ∷ []) h = tt
  contribute-IsOrdered tick n i (e ∷ f ∷ fs) h =
      (ground arith, contribute-IsOrdered tick n (suc i) (f ∷ fs) h.1)

  length-contribute :
      (tick n i : ℕ) (es : List (Entry A))
      → length (contribute weight average tick n i es) ≡ length es
  unfolding contribute
  length-contribute tick n i [] = refl
  length-contribute tick n i (e ∷ es) = omega (arith, length-contribute tick n (suc i) es)

  -- What `choose` selects from the candidates, and that it keeps the ensemble valid.
  record Chosen (e : Ensembler A) (tick : ℕ) (cs : List (Entry A)) : Type 0 where
    ordered : IsOrdered (choose weight average e tick cs).1.contributors
    size : length (choose weight average e tick cs).1.contributors ≡ length cs
    back : FallsBack e (choose weight average e tick cs).1
    valid : IsValid e → IsValid (choose weight average e tick cs).0
    later : (n : ℕ) → From n e.by_tick → From n (choose weight average e tick cs).0.by_tick
    old :
        (choose weight average e tick cs).0.stats.prediction_points_age_expired
        ≡ e.stats.prediction_points_age_expired

  choose-Chosen : (e : Ensembler A) (tick : ℕ) (cs : List (Entry A)) → Chosen e tick cs
  unfolding choose
  choose-Chosen e tick [] = record {
    ordered = tt;
    size = refl;
    back = ((λ _. refl, λ _. refl), λ _. refl);
    valid = λ h. record {
      loose = record {
        count = h.loose.count;
        dict = h.loose.dict;
        timed = h.loose.timed;
        accounted = h.loose.accounted;
      };
      bounded = h.bounded;
    };
    later = λ n h. h;
    old = refl;
  }
  choose-Chosen e tick (c ∷ cs) =
      let size =
        length-contribute tick (length (c ∷ cs)) 0 (sort (c ∷ cs)) ∙ length-sort (c ∷ cs) in
      record {
        ordered =
            contribute-IsOrdered tick (length (c ∷ cs)) 0 (sort (c ∷ cs)) (sort-IsSorted (c ∷ cs));
        size = size;
        back = (
          (λ e. absurd cc, λ e. absurd (omega (arith, size, ap (λ cs. length cs) e))),
          λ e. absurd cc,
        );
        valid = λ h. record {
          loose = record {
            count = h.loose.count;
            dict = h.loose.dict;
            timed = h.loose.timed;
            accounted = h.loose.accounted;
          };
          bounded = h.bounded;
        };
        later = λ n h. h;
        old = refl;
      }

  choose-All :
      (e : Ensembler A) (horizon : ℕ) (limit : Option ℕ) (tick : ℕ) (cs : List (Entry A))
      → All (Due horizon limit tick) cs
      → All (Contributes horizon limit tick) (choose weight average e tick cs).1.contributors
  unfolding choose
  choose-All e horizon limit tick [] h = tt
  choose-All e horizon limit tick (c ∷ cs) h =
      contribute-All horizon limit tick (length (c ∷ cs)) 0 (sort (c ∷ cs))
        (sort-All (Due horizon limit tick) (c ∷ cs) h)

  -- From a valid ensemble, every contributor that `select` returns is for exactly the tick of the
  -- command, `query_command_tick + source_horizon`, within the source horizon and the age limit. The
  -- contributors stand from the oldest query to the newest. They are the entries stored for the tick
  -- that are within the age limit, each with the row of its chunk at its horizon as the action: equally
  -- many pass any test of number and tick of the query, horizon and action. The others are counted as
  -- too old, and the last action is repeated exactly if none contributes. The new ensemble is valid
  -- and holds only ticks after the command's.
  pub select_lem :
      (e : Ensembler A) (tick : ℕ) (f : RowTest A)
      → IsValid e
      → let t = select weight average e tick in
        All (Contributes e.max_source_horizon e.max_prediction_age_ticks tick) t.1.contributors
        × IsOrdered t.1.contributors
        × (length t.1.contributors + t.0.stats.prediction_points_age_expired
            ≡ length (entries_at tick e.by_tick) + e.stats.prediction_points_age_expired)
        × (contributing f t.1.contributors
            ≡ passing
                (λ x. recent e.max_prediction_age_ticks tick x.0.query_command_tick && on_entry f x)
                (entries_at tick e.by_tick))
        × FallsBack e t.1
        × IsValid t.0
        × From (suc tick) t.0.by_tick
  unfolding select expire_before
  select_lem e tick f h =
      let kept = expire_before e tick in
      let raw = entries_at tick kept.by_tick in
      let limit = e.max_prediction_age_ticks in
      let k = expire_before-IsValid e tick h in
      let popped = record kept {
        by_tick = without tick kept.by_tick;
        entry_count = kept.entry_count - length raw;
        stats = record kept.stats {
          prediction_points_age_expired =
              kept.stats.prediction_points_age_expired + count_old limit tick raw;
        };
      } in
      let c = choose-Chosen popped tick (young limit tick raw) in
      let n = without-total tick kept.by_tick in
      let m = young-count_old limit tick raw in
      let popped-IsValid : IsValid popped = record {
        loose = record {
          count = omega (arith, n, k.loose.count);
          dict = without-IsDict tick kept.by_tick k.loose.dict;
          timed = without-Every (Timed e.max_source_horizon) tick kept.by_tick k.loose.timed;
          accounted = omega (arith, n, m, k.loose.count, k.loose.accounted);
        };
        bounded = omega (arith, k.bounded);
      } in
      (
        choose-All popped e.max_source_horizon limit tick (young limit tick raw) (
            young-All e.max_source_horizon limit tick raw
              (entries_at-All (Timed e.max_source_horizon) tick kept.by_tick k.loose.timed)),
        c.ordered,
        omega (
          arith,
          c.size,
          c.old,
          m,
          ap (λ (es : List (Entry A)). length es) (entries_at-keep_from tick e.by_tick),
        ),
        choose-passing weight average f popped tick (young limit tick raw)
            ∙ young-passing (on_entry f) limit tick raw
            ∙ ap
                (λ (es : List (Entry A)).
                  passing (λ x. recent limit tick x.0.query_command_tick && on_entry f x) es)
                (entries_at-keep_from tick e.by_tick),
        c.back,
        c.valid popped-IsValid,
        c.later (suc tick)
            (without-From tick kept.by_tick k.loose.dict (keep_from-From tick e.by_tick)),
      )
