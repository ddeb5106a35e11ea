-- ===== src/Ensemble/Contents.antt =====
-- Which entries the operations of src/embodiment_core/act_temporal_executor.py store, drop and let
-- contribute, by the number of those that pass a test: equal numbers for every test mean the same
-- entries.
use embodied_hand_lab.Prelude.{
  Result-cases, ℕ, zero, suc, ◌+◌, ◌≤◌, ◌≡◌, Bool, true, ◌&&◌, Option, none, some, List, [], ◌∷◌,
  ◌++◌, arith, refl, if◌then◌else◌, leb, ok, ◌==◌, ==_iff, Bool-cases, Option-cases, inl, inr,
  length, ◌-◌,
}
use embodied_hand_lab.Ensemble.Buckets.{
  TemporalPrediction, Entry, Buckets, add_entry, oldest_tick, drop_first, insert, sort,
}
use embodied_hand_lab.Ensemble.Executor.{
  Ensembler, TemporalContributor, drop_oldest, trim, add_points, young, too_old, contribute, choose,
}

-- The age test: the limit, if there is one, is not below the ticks since the query.
abbrev pub recent : Option ℕ → ℕ → ℕ → Bool
recent none tick query_tick = true
recent (some limit) tick query_tick = leb tick (limit + query_tick)

abbrev pub one_if : Bool → ℕ
one_if b = if b then 1 else 0

module _ {A : Type 0} where
  -- The entries of a list that pass a test, and those of a dictionary.
  abbrev pub passing : (Entry A → Bool) → List (Entry A) → ℕ
  passing f [] = 0
  passing f (e ∷ es) = one_if (f e) + passing f es

  abbrev pub stored : (ℕ → Entry A → Bool) → Buckets A → ℕ
  stored f [] = 0
  stored f ((t, es) ∷ rest) = passing (f t) es + stored f rest

  -- The points of a prediction from a row on that pass a test.
  abbrev pub points : (ℕ → Entry A → Bool) → ℕ → ℕ → TemporalPrediction A → ℕ
  points f zero horizon p = 0
  points f (suc n) horizon p =
      one_if (f (p.query_command_tick + horizon) (p, horizon)) + points f n (suc horizon) p

  passing-snoc :
      (f : Entry A → Bool) (es : List (Entry A)) (e : Entry A)
      → passing f (es ++ e ∷ []) ≡ passing f es + one_if (f e)
  passing-snoc f [] e = omega arith
  passing-snoc f (x ∷ es) e = omega (arith, passing-snoc f es e)

  stored-add_entry :
      (f : ℕ → Entry A → Bool) (tick : ℕ) (e : Entry A) (d : Buckets A)
      → stored f (add_entry tick e d) ≡ stored f d + one_if (f tick e)
  unfolding add_entry
  stored-add_entry f tick e [] = omega arith
  stored-add_entry f tick e ((t, es) ∷ rest) = elim (Bool-cases (t == tick)) [
    | inl k ↦ rw k (rw (← (==_iff t tick).0 k) (omega (arith, passing-snoc (f t) es e)))
    | inr k ↦ rw k (omega (arith, stored-add_entry f tick e rest))
  ]

  pub stored-add_points :
      (f : ℕ → Entry A → Bool) (n horizon : ℕ) (p : TemporalPrediction A) (e : Ensembler A)
      → stored f (add_points n horizon p e).by_tick ≡ stored f e.by_tick + points f n horizon p
  unfolding add_points
  stored-add_points f zero horizon p e = omega arith
  stored-add_points f (suc n) horizon p e =
      let tick = p.query_command_tick + horizon in
      let d = add_entry tick (p, horizon) e.by_tick in
      let next = record e { by_tick = d; entry_count = e.entry_count + 1 } in
      omega (
        arith,
        stored-add_entry f tick (p, horizon) e.by_tick,
        stored-add_points f n (suc horizon) p next,
      )

  -- Of the entries that pass, the second dictionary lacks one at most, and has no others.
  abbrev Lacks : (ℕ → Entry A → Bool) → Buckets A → Buckets A → Type 0
  Lacks f d d' = (stored f d' ≤ stored f d) × (stored f d ≤ stored f d' + 1)

  drop_first-Lacks :
      (f : ℕ → Entry A → Bool) (tick : ℕ) (d d' : Buckets A)
      → drop_first tick d ≡ some d'
      → Lacks f d d'
  unfolding drop_first
  drop_first-Lacks f tick [] d' h = absurd cc
  drop_first-Lacks f tick ((t, []) ∷ rest) d' h = elim (Option-cases (drop_first tick rest)) [
    | inl e ↦ absurd (ground arith)
    | inr (r, e) ↦
        let k = drop_first-Lacks f tick rest r e in
        let same : (t, []) ∷ r ≡ d' = ground arith in rw (← same) (omega arith)
  ]
  drop_first-Lacks f tick ((t, x ∷ []) ∷ rest) d' h = elim (Bool-cases (t == tick)) [
    | inl q ↦ let same : rest ≡ d' = ground arith in rw (← same) (ground arith)
    | inr q ↦ elim (Option-cases (drop_first tick rest)) [
      | inl e ↦ absurd (ground arith)
      | inr (r, e) ↦
          let k = drop_first-Lacks f tick rest r e in
          let same : (t, x ∷ []) ∷ r ≡ d' = ground arith in rw (← same) (omega arith)
    ]
  ]
  drop_first-Lacks f tick ((t, x ∷ y ∷ es) ∷ rest) d' h = elim (Bool-cases (t == tick)) [
    | inl q ↦ let same : (t, y ∷ es) ∷ rest ≡ d' = ground arith in rw (← same) (ground arith)
    | inr q ↦ elim (Option-cases (drop_first tick rest)) [
      | inl e ↦ absurd (ground arith)
      | inr (r, e) ↦
          let k = drop_first-Lacks f tick rest r e in
          let same : (t, x ∷ y ∷ es) ∷ r ≡ d' = ground arith in rw (← same) (omega arith)
    ]
  ]

  -- Entries go only by being counted as dropped, and none come.
  abbrev pub Drops : (ℕ → Entry A → Bool) → Ensembler A → Ensembler A → Type 0
  Drops f e e' =
      (stored f e'.by_tick ≤ stored f e.by_tick)
      × (stored f e.by_tick + e.stats.prediction_points_capacity_dropped
          ≤ stored f e'.by_tick + e'.stats.prediction_points_capacity_dropped)

  drop_oldest-Drops :
      (f : ℕ → Entry A → Bool) (e e' : Ensembler A) → drop_oldest e ≡ ok e' → Drops f e e'
  unfolding drop_oldest
  drop_oldest-Drops f e e' h = elim (Option-cases (oldest_tick e.by_tick)) [
    | inl k ↦ absurd (ground arith)
    | inr (t, k) ↦ elim (Option-cases (drop_first t e.by_tick)) [
      | inl q ↦ absurd (ground arith)
      | inr (d, q) ↦
          let lacks = drop_first-Lacks f t e.by_tick d q in
          let same : record e {
            by_tick = d;
            entry_count = e.entry_count - 1;
            stats = record e.stats {
              prediction_points_capacity_dropped = e.stats.prediction_points_capacity_dropped + 1;
            };
          }
              ≡ e' =
            ground arith in
          rw (← same) (lacks.0, omega arith)
    ]
  ]

  pub trim-Drops :
      (f : ℕ → Entry A → Bool) (n : ℕ) (e e' : Ensembler A) → trim n e ≡ ok e' → Drops f e e'
  unfolding trim
  trim-Drops f zero e e' h = let same : e ≡ e' = ground arith in rw (← same) (omega arith)
  trim-Drops f (suc n) e e' h = elim (Bool-cases (leb e.entry_count e.capacity)) [
    | inl small ↦ let same : e ≡ e' = ground arith in rw (← same) (omega arith)
    | inr large ↦ elim (Result-cases (drop_oldest e)) [
      | inl (x, q) ↦ absurd (ground arith)
      | inr (e1, q) ↦
          let first = drop_oldest-Drops f e e1 q in
          let rest = trim-Drops f n e1 e' (ground arith) in (omega arith, omega arith)
    ]
  ]

  insert-passing :
      (f : Entry A → Bool) (e : Entry A) (es : List (Entry A))
      → passing f (insert e es) ≡ one_if (f e) + passing f es
  unfolding insert
  insert-passing f e [] = refl
  insert-passing f e (x ∷ es) = let k = insert-passing f e es in ground arith

  sort-passing : (f : Entry A → Bool) (es : List (Entry A)) → passing f (sort es) ≡ passing f es
  unfolding sort
  sort-passing f [] = refl
  sort-passing f (e ∷ es) = omega (arith, insert-passing f e (sort es), sort-passing f es)

  pub young-passing :
      (f : Entry A → Bool) (limit : Option ℕ) (tick : ℕ) (es : List (Entry A))
      → passing f (young limit tick es)
        ≡ passing (λ e. recent limit tick e.0.query_command_tick && f e) es
  unfolding young too_old
  young-passing f limit tick [] = refl
  young-passing f none tick (e ∷ es) = let k = young-passing f none tick es in ground arith
  young-passing f (some n) tick (e ∷ es) = let k = young-passing f (some n) tick es in ground arith

-- A test of the query's number and tick, of the row and of its action.
abbrev pub RowTest : Type 0 → Type 0
RowTest A = ℕ → ℕ → ℕ → A → Bool

abbrev pub on_entry : {A : Type 0} → RowTest A → Entry A → Bool
on_entry f e = f e.0.query_id e.0.query_command_tick e.1 (e.0.chunk e.1)

abbrev pub contributing : {A W : Type 0} → RowTest A → List (TemporalContributor A W) → ℕ
contributing f [] = 0
contributing f (c ∷ cs) =
    one_if (f c.query_id c.query_command_tick c.source_horizon c.predicted_action)
    + contributing f cs

module _ {A W : Type 0} (weight : ℕ → ℕ → W) (average : List (A × W) → A) where
  contribute-passing :
      (f : RowTest A) (tick n i : ℕ) (es : List (Entry A))
      → contributing f (contribute weight average tick n i es) ≡ passing (on_entry f) es
  unfolding contribute
  contribute-passing f tick n i [] = refl
  contribute-passing f tick n i (e ∷ es) = omega (arith, contribute-passing f tick n (suc i) es)

  pub choose-passing :
      (f : RowTest A) (e : Ensembler A) (tick : ℕ) (cs : List (Entry A))
      → contributing f (choose weight average e tick cs).1.contributors ≡ passing (on_entry f) cs
  unfolding choose
  choose-passing f e tick [] = refl
  choose-passing f e tick (c ∷ cs) = omega (
    arith,
    contribute-passing f tick (length (c ∷ cs)) 0 (sort (c ∷ cs)),
    sort-passing (on_entry f) (c ∷ cs),
  )
