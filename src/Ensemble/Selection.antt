-- ===== src/Ensemble/Selection.antt =====
-- The candidates of `select` of src/embodiment_core/act_temporal_executor.py: their sort, their ages,
-- and the expiry of the ticks before the command.
use embodied_hand_lab.Prelude.{
  ℕ, ◌+◌, ◌≤◌, ◌≡◌, true, false, List, [], ◌∷◌, arith, length, refl, inl, inr, Bool-cases, Option,
  some, none, All, if_keeps,
}
use embodied_hand_lab.Ensemble.Buckets.{
  Entry, Buckets, entries_at, keep_from, key_le, insert, sort, IsSorted,
}
use embodied_hand_lab.Ensemble.Counting.{expired-total, keep_from-IsDict, keep_from-Every}
use embodied_hand_lab.Ensemble.Executor.{Ensembler, expire_before, young, count_old, too_old}
use embodied_hand_lab.Ensemble.Invariant.{Timed, IsValid}

-- The prediction was made at most as many ticks ago as the limit says.
abbrev pub IsYoung : Option ℕ → ℕ → ℕ → Type 0
IsYoung none tick query_tick = Unit
IsYoung (some limit) tick query_tick = tick ≤ limit + query_tick

module _ {A : Type 0} where
  key_le-total : (a b : Entry A) → key_le a b ≡ false → key_le b a ≡ true
  unfolding key_le
  key_le-total a b h = ground arith

  insert-IsSorted : (e : Entry A) (es : List (Entry A)) → IsSorted es → IsSorted (insert e es)
  unfolding insert
  insert-IsSorted e [] h = tt
  insert-IsSorted e (f ∷ []) h = let k = key_le-total e f in ground arith
  insert-IsSorted e (f ∷ g ∷ gs) h =
      let k = key_le-total e f in let r = insert-IsSorted e (g ∷ gs) h.1 in ground arith

  pub sort-IsSorted : (es : List (Entry A)) → IsSorted (sort es)
  unfolding sort
  sort-IsSorted [] = tt
  sort-IsSorted (e ∷ es) = insert-IsSorted e (sort es) (sort-IsSorted es)

  length-insert : (e : Entry A) (es : List (Entry A)) → length (insert e es) ≡ length es + 1
  unfolding insert
  length-insert e [] = refl
  length-insert e (f ∷ fs) = let h = length-insert e fs in ground arith

  pub length-sort : (es : List (Entry A)) → length (sort es) ≡ length es
  unfolding sort
  length-sort [] = refl
  length-sort (e ∷ es) = omega (arith, length-insert e (sort es), length-sort es)

  insert-All :
      (P : Entry A → Type 0) (e : Entry A) (es : List (Entry A))
      → P e
      → All P es
      → All P (insert e es)
  unfolding insert
  insert-All P e [] p h = (p, tt)
  insert-All P e (f ∷ fs) p h =
      if_keeps (All P) (key_le e f) (e ∷ f ∷ fs) (f ∷ insert e fs) (p, h)
        (h.0, insert-All P e fs p h.1)

  pub sort-All : (P : Entry A → Type 0) (es : List (Entry A)) → All P es → All P (sort es)
  unfolding sort
  sort-All P [] h = tt
  sort-All P (e ∷ es) h = insert-All P e (sort es) h.0 (sort-All P es h.1)

  IsYoung-too_old :
      (limit : Option ℕ) (tick : ℕ) (e : Entry A)
      → too_old limit tick e ≡ false
      → IsYoung limit tick e.0.query_command_tick
  unfolding too_old
  IsYoung-too_old none tick e h = tt
  IsYoung-too_old (some limit) tick e h = ground arith

  -- What is true of an entry that contributes at a tick.
  abbrev pub Due : ℕ → Option ℕ → ℕ → Entry A → Type 0
  Due horizon limit tick e = Timed horizon tick e × IsYoung limit tick e.0.query_command_tick

  pub young-All :
      (horizon : ℕ) (limit : Option ℕ) (tick : ℕ) (es : List (Entry A))
      → All (Timed horizon tick) es
      → All (Due horizon limit tick) (young limit tick es)
  unfolding young
  young-All horizon limit tick [] h = tt
  young-All horizon limit tick (e ∷ es) h = elim (Bool-cases (too_old limit tick e)) [
    | inl old ↦ rw old (young-All horizon limit tick es h.1)
    | inr new ↦
        rw new ((h.0, IsYoung-too_old limit tick e new), young-All horizon limit tick es h.1)
  ]

  pub young-count_old :
      (limit : Option ℕ) (tick : ℕ) (es : List (Entry A))
      → length (young limit tick es) + count_old limit tick es ≡ length es
  unfolding young count_old
  young-count_old limit tick [] = refl
  young-count_old limit tick (e ∷ es) = let h = young-count_old limit tick es in ground arith

  pub entries_at-keep_from :
      (tick : ℕ) (d : Buckets A) → entries_at tick (keep_from tick d) ≡ entries_at tick d
  unfolding entries_at keep_from
  entries_at-keep_from tick [] = refl
  entries_at-keep_from tick ((t, es) ∷ rest) =
      let h = entries_at-keep_from tick rest in ground arith

  pub expire_before-IsValid :
      (e : Ensembler A) (tick : ℕ) → IsValid e → IsValid (expire_before e tick)
  unfolding expire_before
  expire_before-IsValid e tick h =
      let n = expired-total tick e.by_tick in
      record {
        loose = record {
          count = omega (arith, n, h.loose.count);
          dict = keep_from-IsDict tick e.by_tick h.loose.dict;
          timed = keep_from-Every (Timed e.max_source_horizon) tick e.by_tick h.loose.timed;
          accounted = omega (arith, n, h.loose.count, h.loose.accounted);
        };
        bounded = omega (arith, h.bounded);
      }
