-- ===== src/Synchronization/Selection.antt =====
-- What `_latest` of src/episode_dataset/synchronization.py finds by bisection, beside a search through
-- the whole list; and that the observations it is called on are sorted.
use embodied_hand_lab.Prelude.{
  ℕ, zero, suc, ◌+◌, ◌-◌, ◌<◌, ◌≡◌, true, false, Option, none, some, List, [], ◌∷◌, arith, refl,
  length, get_or, get_elem?, All, if_keeps, leb→le, Bool-cases, inl, inr, ◌==◌, if◌then◌else◌, sym,
  ◌∙◌,
}
use embodied_hand_lab.Prelude.Int.{ℤ, pos, ◌≤ℤ◌, lebℤ, pos_part, neg_part}
use embodied_hand_lab.Synchronization.Bisection.{
  IsSorted, Splits, bisect_right, bisect_right-Splits,
}
use embodied_hand_lab.Synchronization.Observations.{Observation, times, latest, insert, sort}

All-le : (a b : ℤ) (xs : List ℤ) → a ≤ℤ b → All (λ y. b ≤ℤ y) xs → All (λ y. a ≤ℤ y) xs
All-le a b [] h k = tt
All-le a b (x ∷ xs) h k = (omega arith, All-le a b xs h k.1)

module _ {V : Type 0} where
  -- The last element of the list that is not later than `t`, or else `found`.
  abbrev pub last_before :
      Option (Observation V) → List (Observation V) → ℤ → Option (Observation V)
  last_before found [] t = found
  last_before found (x ∷ xs) t = last_before (if lebℤ x.timestamp_ns t then some x else found) xs t

  -- Behind the place that splits the list nothing is found.
  last_before_above :
      (found : Option (Observation V)) (xs : List (Observation V)) (t : ℤ)
      → ((i : ℕ)
          → i < length (times xs)
          → pos_part t + neg_part (get_or (times xs) i (pos 0))
            < pos_part (get_or (times xs) i (pos 0)) + neg_part t)
      → last_before found xs t ≡ found
  last_before_above found [] t h = refl
  last_before_above found (x ∷ xs) t h =
      let late = h 0 (omega arith) in
      let e : lebℤ x.timestamp_ns t ≡ false = ground arith in
      rw e (last_before_above found xs t (λ i k. h (suc i) (omega arith)))

  -- The element in front of the place `r`, or else `found`.
  place : Option (Observation V) → ℕ → List (Observation V) → Option (Observation V)
  place found zero xs = found
  place found (suc r) xs = get_elem? xs r

  place_cons :
      (found : Option (Observation V)) (x : Observation V) (xs : List (Observation V)) (r : ℕ)
      → place (some x) r xs ≡ place found (suc r) (x ∷ xs)
  unfolding place
  place_cons found x xs zero = refl
  place_cons found x xs (suc r) = refl

  latest-eq-place :
      (xs : List (Observation V)) (t : ℤ) → latest xs t ≡ place none (bisect_right (times xs) t) xs
  unfolding latest place
  latest-eq-place xs t = in_front (bisect_right (times xs) t)
    where
      in_front : (r : ℕ) → (if r == 0 then none else get_elem? xs (r - 1)) ≡ place none r xs
      in_front zero = refl
      in_front (suc r) =
          let test : (suc r == 0) ≡ false = ground arith in
          let index : suc r - 1 ≡ r = omega arith in rw (test, index) refl

  last_before_split :
      (found : Option (Observation V)) (xs : List (Observation V)) (t : ℤ) (r : ℕ)
      → Splits (times xs) t r
      → last_before found xs t ≡ place found r xs
  unfolding place
  last_before_split found xs t zero s =
      last_before_above found xs t (λ i k. s.above i (omega arith) k)
  last_before_split found [] t (suc r) s = absurd (omega (arith, s.inside))
  last_before_split found (x ∷ xs) t (suc r) s =
      let early = s.below 0 (omega arith) in
      let e : lebℤ x.timestamp_ns t ≡ true = ground arith in
      let rest : Splits (times xs) t r = record {
        inside = omega (arith, s.inside);
        below = λ i k. s.below (suc i) (omega arith);
        above = λ i k l. s.above (suc i) (omega arith) (omega arith);
      } in
      rw e (last_before_split (some x) xs t r rest ∙ place_cons found x xs r)

  -- What is found is not later than `t`, and no observation up to `t` is later than it; if nothing is
  -- found, all are later.
  abbrev pub Newest : List (Observation V) → ℤ → Option (Observation V) → Type 0
  Newest xs t none = All (λ y. lebℤ y.timestamp_ns t ≡ false) xs
  Newest xs t (some o) =
      (o.timestamp_ns ≤ℤ t)
      × All (λ y. lebℤ y.timestamp_ns t ≡ true → y.timestamp_ns ≤ℤ o.timestamp_ns) xs

  -- The same, for a search that has found `x`.
  abbrev NewestFrom : Observation V → List (Observation V) → ℤ → Option (Observation V) → Type 0
  NewestFrom x xs t none = ⊥
  NewestFrom x xs t (some o) = (x.timestamp_ns ≤ℤ o.timestamp_ns) × Newest xs t (some o)

  from_earlier :
      (x y : Observation V) (ys : List (Observation V)) (t : ℤ) (o : Option (Observation V))
      → x.timestamp_ns ≤ℤ y.timestamp_ns
      → NewestFrom y ys t o
      → NewestFrom x (y ∷ ys) t o
  from_earlier x y ys t none h n = n
  from_earlier x y ys t (some o) h (k, (m, a)) = (omega arith, (m, (λ e. k, a)))

  from_late :
      (x y : Observation V) (ys : List (Observation V)) (t : ℤ) (o : Option (Observation V))
      → lebℤ y.timestamp_ns t ≡ false
      → NewestFrom x ys t o
      → NewestFrom x (y ∷ ys) t o
  from_late x y ys t none h n = n
  from_late x y ys t (some o) h (k, (m, a)) = (k, (m, (λ e. cc, a)))

  late :
      (y : Observation V) (ys : List (Observation V)) (t : ℤ) (o : Option (Observation V))
      → lebℤ y.timestamp_ns t ≡ false
      → Newest ys t o
      → Newest (y ∷ ys) t o
  late y ys t none h n = (h, n)
  late y ys t (some o) h (m, a) = (m, (λ e. cc, a))

  forget :
      (x : Observation V) (xs : List (Observation V)) (t : ℤ) (o : Option (Observation V))
      → NewestFrom x xs t o
      → Newest (x ∷ xs) t o
  forget x xs t none n = absurd n
  forget x xs t (some o) (k, (m, a)) = (m, (λ e. k, a))

  last_before-NewestFrom :
      (x : Observation V) (xs : List (Observation V)) (t : ℤ)
      → IsSorted (times (x ∷ xs))
      → lebℤ x.timestamp_ns t ≡ true
      → NewestFrom x xs t (last_before (some x) xs t)
  last_before-NewestFrom x [] t s h = (omega arith, (leb→le _ _ h, tt))
  last_before-NewestFrom x (y ∷ ys) t s h = elim (Bool-cases (lebℤ y.timestamp_ns t)) [
    | inl e ↦ rw e (from_earlier x y ys t _ s.0.0 (last_before-NewestFrom y ys t s.1 e))
    | inr e ↦ rw e (from_late x y ys t _ e (last_before-NewestFrom x ys t (s.0.1, s.1.1) h))
  ]

  last_before-Newest :
      (xs : List (Observation V)) (t : ℤ)
      → IsSorted (times xs)
      → Newest xs t (last_before none xs t)
  last_before-Newest [] t s = tt
  last_before-Newest (x ∷ xs) t s = elim (Bool-cases (lebℤ x.timestamp_ns t)) [
    | inl e ↦ rw e (forget x xs t _ (last_before-NewestFrom x xs t s e))
    | inr e ↦ rw e (late x xs t _ e (last_before-Newest xs t s.1))
  ]

  insert-sorted_from :
      (b : ℤ) (x : Observation V) (xs : List (Observation V))
      → b ≤ℤ x.timestamp_ns
      → All (λ y. b ≤ℤ y) (times xs)
      → All (λ y. b ≤ℤ y) (times (insert x xs))
  unfolding insert
  insert-sorted_from b x [] h k = (h, tt)
  insert-sorted_from b x (y ∷ ys) h k =
      if_keeps (λ l. All (λ z. b ≤ℤ z) (times l)) (lebℤ x.timestamp_ns y.timestamp_ns) (x ∷ y ∷ ys)
        (y ∷ insert x ys) (h, k) (k.0, insert-sorted_from b x ys h k.1)

  insert-IsSorted :
      (x : Observation V) (xs : List (Observation V))
      → IsSorted (times xs)
      → IsSorted (times (insert x xs))
  unfolding insert
  insert-IsSorted x [] s = (tt, tt)
  insert-IsSorted x (y ∷ ys) s = elim (Bool-cases (lebℤ x.timestamp_ns y.timestamp_ns)) [
    | inl e ↦
        rw e ((leb→le _ _ e, All-le x.timestamp_ns y.timestamp_ns (times ys) (leb→le _ _ e) s.0), s)
    | inr e ↦
        rw e (insert-sorted_from y.timestamp_ns x ys (ground arith) s.0, insert-IsSorted x ys s.1)
  ]

  -- `sorted` sorts.
  pub sort-IsSorted : (xs : List (Observation V)) → IsSorted (times (sort xs))
  unfolding sort
  sort-IsSorted [] = tt
  sort-IsSorted (x ∷ xs) = insert-IsSorted x (sort xs) (sort-IsSorted xs)

  -- On a sorted list, `_latest` returns by bisection what a search through the whole list returns:
  -- the last observation that is not later than the time, or None if all are later.
  pub latest-eq-last_before :
      (xs : List (Observation V)) (t : ℤ)
      → IsSorted (times xs)
      → latest xs t ≡ last_before none xs t
  latest-eq-last_before xs t s =
      latest-eq-place xs t
      ∙ sym (
          last_before_split none xs t (bisect_right (times xs) t)
            (bisect_right-Splits (times xs) t s))

  -- So on observations that were sorted `_latest` never returns one that is later than the time, and
  -- never passes over one that is newer and not later than the time; it returns None exactly if all
  -- are later.
  pub latest-Newest : (xs : List (Observation V)) (t : ℤ) → Newest (sort xs) t (latest (sort xs) t)
  latest-Newest xs t =
      rw (latest-eq-last_before (sort xs) t (sort-IsSorted xs))
        (last_before-Newest (sort xs) t (sort-IsSorted xs))
