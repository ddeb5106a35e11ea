-- ===== src/Synchronization/Bisection.antt =====
-- `bisect.bisect_right` of Python's library, which src/episode_dataset/synchronization.py calls, on a
-- list of integers: on a sorted list it returns the place behind all that are not above the key.
use embodied_hand_lab.Prelude.{
  ℕ, zero, suc, ◌+◌, ◌-◌, ◌/◌, ◌≤◌, ◌<◌, ◌≡◌, true, false, List, [], ◌∷◌, arith, length, get_or,
  ltb, All, Bool-cases, inl, inr, ltb→lt,
}
use embodied_hand_lab.Prelude.Int.{ℤ, pos, ◌≤ℤ◌, ltbℤ, pos_part, neg_part}

-- `while lo < hi: mid = (lo + hi) // 2; ...`, with fuel for the turns.
unfoldable pub bisect_loop : ℕ → List ℤ → ℤ → ℕ → ℕ → ℕ
bisect_loop zero a x lo hi = lo
bisect_loop (suc fuel) a x lo hi = elim (ltb lo hi) [
  | false ↦ lo
  | true ↦ elim (ltbℤ x (get_or a ((lo + hi) / 2) (pos 0))) [
    | true ↦ bisect_loop fuel a x lo ((lo + hi) / 2)
    | false ↦ bisect_loop fuel a x ((lo + hi) / 2 + 1) hi
  ]
]

unfoldable pub bisect_right : List ℤ → ℤ → ℕ
unfolding bisect_loop
bisect_right a x = bisect_loop (length a) a x 0 (length a)

abbrev pub IsSorted : List ℤ → Type 0
IsSorted [] = Unit
IsSorted (x ∷ xs) = All (λ y. x ≤ℤ y) xs × IsSorted xs

-- The first `r` integers are at most `x`, the others are above it.
pub record Splits (a : List ℤ) (x : ℤ) (r : ℕ) : Type 0 where
  pub inside : r ≤ length a
  pub below : (i : ℕ) → i < r → get_or a i (pos 0) ≤ℤ x
  pub above :
      (i : ℕ)
      → r ≤ i
      → i < length a
      → pos_part x + neg_part (get_or a i (pos 0)) < pos_part (get_or a i (pos 0)) + neg_part x

All_get :
    (x : ℤ) (xs : List ℤ) (j : ℕ) → All (λ y. x ≤ℤ y) xs → j < length xs → x ≤ℤ get_or xs j (pos 0)
All_get x [] j h k = absurd (omega arith)
All_get x (y ∷ ys) zero h k = h.0
All_get x (y ∷ ys) (suc j) h k = All_get x ys j h.1 (omega arith)

sorted_get :
    (xs : List ℤ) (i j : ℕ)
    → IsSorted xs
    → i ≤ j
    → j < length xs
    → get_or xs i (pos 0) ≤ℤ get_or xs j (pos 0)
sorted_get [] i j s h k = absurd (omega arith)
sorted_get (x ∷ xs) zero zero s h k = omega arith
sorted_get (x ∷ xs) zero (suc j) s h k = All_get x xs j s.0 (omega arith)
sorted_get (x ∷ xs) (suc i) zero s h k = absurd (omega arith)
sorted_get (x ∷ xs) (suc i) (suc j) s h k = sorted_get xs i j s.1 (omega arith) (omega arith)

-- What holds between the turns.
record Inv (a : List ℤ) (x : ℤ) (lo hi : ℕ) : Type 0 where
  ordered : lo ≤ hi
  inside : hi ≤ length a
  below : (i : ℕ) → i < lo → get_or a i (pos 0) ≤ℤ x
  above :
      (i : ℕ)
      → hi ≤ i
      → i < length a
      → pos_part x + neg_part (get_or a i (pos 0)) < pos_part (get_or a i (pos 0)) + neg_part x

module _ (a : List ℤ) (x : ℤ) (sorted : IsSorted a) where
  lower-Inv :
      (lo hi : ℕ)
      → lo < hi
      → ltbℤ x (get_or a ((lo + hi) / 2) (pos 0)) ≡ true
      → Inv a x lo hi
      → Inv a x lo ((lo + hi) / 2)
  lower-Inv lo hi h t v = record {
    ordered = omega arith;
    inside = omega (arith, v.inside);
    below = v.below;
    above = λ i p q. let s = sorted_get a ((lo + hi) / 2) i sorted p q in ground arith;
  }

  upper-Inv :
      (lo hi : ℕ)
      → lo < hi
      → ltbℤ x (get_or a ((lo + hi) / 2) (pos 0)) ≡ false
      → Inv a x lo hi
      → Inv a x ((lo + hi) / 2 + 1) hi
  upper-Inv lo hi h t v = record {
    ordered = omega arith;
    inside = v.inside;
    below = λ i p.
        let s = sorted_get a i ((lo + hi) / 2) sorted (omega arith) (omega (arith, v.inside)) in
        ground arith;
    above = v.above;
  }

  bisect_loop-Splits :
      (fuel lo hi : ℕ) → Inv a x lo hi → hi - lo ≤ fuel → Splits a x (bisect_loop fuel a x lo hi)
  unfolding bisect_loop
  bisect_loop-Splits zero lo hi v f = record {
    inside = omega (arith, v.ordered, v.inside);
    below = v.below;
    above = λ i p q. v.above i (omega (arith, v.ordered)) q;
  }
  bisect_loop-Splits (suc fuel) lo hi v f = elim (Bool-cases (ltb lo hi)) [
    | inr done ↦
        rw (done, bisect_loop)
          (record {
            inside = omega (arith, v.ordered, v.inside);
            below = v.below;
            above = λ i p q. v.above i (ground arith) q;
          })
    | inl more ↦ elim (Bool-cases (ltbℤ x (get_or a ((lo + hi) / 2) (pos 0)))) [
      | inl t ↦
          rw (more, bisect_loop)
            (rw (t, bisect_loop)
              (bisect_loop-Splits fuel lo ((lo + hi) / 2) (lower-Inv lo hi (ltb→lt lo hi more) t v)
                (let h = ltb→lt lo hi more in omega arith)))
      | inr t ↦
          rw (more, bisect_loop)
            (rw (t, bisect_loop)
              (bisect_loop-Splits fuel ((lo + hi) / 2 + 1) hi
                (upper-Inv lo hi (ltb→lt lo hi more) t v)
                (let h = ltb→lt lo hi more in omega arith)))
    ]
  ]

  -- On a sorted list the fuel is enough, and the result splits the list at the key.
  pub bisect_right-Splits : Splits a x (bisect_right a x)
  unfolding bisect_right
  bisect_right-Splits =
      bisect_loop-Splits (length a) 0 (length a)
        (record {
          ordered = omega arith;
          inside = omega arith;
          below = λ i p. absurd (omega arith);
          above = λ i p q. absurd (omega arith);
        })
        (omega arith)

-- On any list, sorted or not, what stands in front of the place is not above the key.
record NotAbove (a : List ℤ) (x : ℤ) (lo hi : ℕ) : Type 0 where
  ordered : lo ≤ hi
  inside : hi ≤ length a
  front : 0 < lo → get_or a (lo - 1) (pos 0) ≤ℤ x

module _ (a : List ℤ) (x : ℤ) where
  bisect_loop-front :
      (fuel lo hi : ℕ)
      → NotAbove a x lo hi
      → let r = bisect_loop fuel a x lo hi in
        (r ≤ length a) × (0 < r → get_or a (r - 1) (pos 0) ≤ℤ x)
  unfolding bisect_loop
  bisect_loop-front zero lo hi v = (omega (arith, v.ordered, v.inside), v.front)
  bisect_loop-front (suc fuel) lo hi v = elim (Bool-cases (ltb lo hi)) [
    | inr done ↦ rw (done, bisect_loop) (omega (arith, v.ordered, v.inside), v.front)
    | inl more ↦
        let h = ltb→lt lo hi more in
        elim (Bool-cases (ltbℤ x (get_or a ((lo + hi) / 2) (pos 0)))) [
          | inl t ↦
              rw (more, bisect_loop)
                (rw (t, bisect_loop)
                  (bisect_loop-front fuel lo ((lo + hi) / 2) (record {
                    ordered = omega arith;
                    inside = omega (arith, v.inside);
                    front = v.front;
                  })))
          | inr t ↦
              let same : (lo + hi) / 2 + 1 - 1 ≡ (lo + hi) / 2 = omega arith in
              rw (more, bisect_loop)
                (rw (t, bisect_loop)
                  (bisect_loop-front fuel ((lo + hi) / 2 + 1) hi (record {
                    ordered = omega arith;
                    inside = v.inside;
                    front = λ p. rw same (ground arith);
                  })))
        ]
  ]

  pub bisect_right-front :
      let r = bisect_right a x in (r ≤ length a) × (0 < r → get_or a (r - 1) (pos 0) ≤ℤ x)
  unfolding bisect_right
  bisect_right-front =
      bisect_loop-front (length a) 0 (length a)
        (record { ordered = omega arith; inside = omega arith; front = λ p. absurd (omega arith) })
