-- ===== src/HandSchema/Names.antt =====
-- What `_validate_order` of src/rh56_driver/hand_schema.py accepts.
use text.Mathlib.Text.{◌==◌ as str_eq}
use text.Mathlib.TextEquality.{eq_iff}
use embodied_hand_lab.Prelude.{
  ◌+◌, ◌≤◌, if◌then◌else◌, ◌≡◌, Bool, true, false, String, List, [], ◌∷◌, ok, length, all, arith,
  refl,
}
use embodied_hand_lab.HandSchema.{canonical_hand_order, contains, distinct, validate_order}

-- An order of exactly the six names.
abbrev pub IsOrder : List String → Type 0
IsOrder order = validate_order order ≡ ok order

abbrev pub Contains : List String → String → Type 0
Contains xs n = contains xs n ≡ true

pub Contains-all :
    (p : String → Bool) (xs : List String) (n : String)
    → all p xs ≡ true
    → Contains xs n
    → p n ≡ true
unfolding contains
Contains-all p [] n h c = cc
Contains-all p (x ∷ xs) n h c = ground (arith, eq_iff x n, Contains-all p xs n)

pub order_parts :
    (s : List String)
    → IsOrder s
    → (distinct s ≡ true)
      × (all (contains s) canonical_hand_order ≡ true)
      × (all (contains canonical_hand_order) s ≡ true)
unfolding validate_order
order_parts s h = ground arith

-- A list without the first occurrence of a name.
remove : String → List String → List String
remove n [] = []
remove n (x ∷ xs) = if str_eq x n then xs else x ∷ remove n xs

length-remove :
    (n : String) (xs : List String) → Contains xs n → length xs ≡ length (remove n xs) + 1
unfolding remove contains
length-remove n [] c = absurd (ground arith)
length-remove n (x ∷ xs) c = ground (arith, length-remove n xs)

Contains-remove :
    (m n : String) (xs : List String)
    → str_eq n m ≡ false
    → Contains xs m
    → Contains (remove n xs) m
unfolding remove contains
Contains-remove m n [] ne c = c
Contains-remove m n (x ∷ xs) ne c =
    ground (arith, eq_iff x n, eq_iff x m, eq_iff n m, Contains-remove m n xs ne)

all-remove :
    (n : String) (xs ys : List String)
    → contains xs n ≡ false
    → all (contains ys) xs ≡ true
    → all (contains (remove n ys)) xs ≡ true
unfolding contains
all-remove n [] ys out h = refl
all-remove n (x ∷ xs) ys out h =
    let c = Contains-remove x n ys (ground (arith, eq_iff n x, eq_iff x n)) (ground arith) in
    let r = all-remove n xs ys (ground arith) (ground arith) in ground arith

-- Distinct names that another list holds are at most as many as that list has.
length-le :
    (xs ys : List String) → distinct xs ≡ true → all (contains ys) xs ≡ true → length xs ≤ length ys
unfolding distinct
length-le [] ys d h = omega arith
length-le (x ∷ xs) ys d h =
    let r = all-remove x xs ys (ground arith) (ground arith) in
    let l = length-le xs (remove x ys) (ground arith) r in
    omega (arith, length-remove x ys (ground arith), l)

-- A valid order has six names.
pub length-IsOrder : (s : List String) → IsOrder s → length s ≡ 6
length-IsOrder s h =
    let (d, some_all, only) = order_parts s h in
    let up = length-le s canonical_hand_order d only in
    let down = length-le canonical_hand_order s (unfold distinct contains in refl) some_all in
    omega (arith, up, down)
