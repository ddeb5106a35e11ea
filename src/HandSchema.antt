-- ===== src/HandSchema.antt =====
-- src/rh56_driver/hand_schema.py: the orders of the six finger values, and the change from one order
-- to another. Values are floats of a parameter type; `float32` is the rounding of `np.asarray(values,
-- dtype=np.float32)`, which is numpy's.
pub mod Names
pub mod Orders
use text.Mathlib.Text.{◌==◌ as str_eq}
use embodied_hand_lab.Prelude.{
  ℕ, Bool, true, false, not, ◌&&◌, ◌||◌, String, List, [], ◌∷◌, map, Option, none, some, Result, ok,
  err, guard, ◌>>=◌, ◌>>◌, if◌then◌else◌, length, ◌==◌, all,
}

abbrev pub canonical_hand_order : List String
canonical_hand_order = "index" ∷ "middle" ∷ "ring" ∷ "pinky" ∷ "thumb_close" ∷ "thumb_lateral" ∷ []

abbrev pub rh56_internal_order : List String
rh56_internal_order = "thumb_close" ∷ "thumb_lateral" ∷ "index" ∷ "middle" ∷ "ring" ∷ "pinky" ∷ []

abbrev pub rh56_protocol_order : List String
rh56_protocol_order = "pinky" ∷ "ring" ∷ "middle" ∷ "index" ∷ "thumb_close" ∷ "thumb_lateral" ∷ []

-- The ValueErrors, and the KeyError of a dictionary.
pub data Error : Type 0 where
  duplicate_names not_canonical bad_size missing_key : Error

-- `name in order`
unfoldable pub contains : List String → String → Bool
contains [] name = false
contains (x ∷ xs) name = str_eq x name || contains xs name

-- `len(order_tuple) == len(set(order_tuple))`
unfoldable pub distinct : List String → Bool
unfolding contains
distinct [] = true
distinct (x ∷ xs) = not (contains xs x) && distinct xs

-- `_validate_order`
unfoldable pub validate_order : List String → Result Error (List String)
unfolding distinct contains
validate_order order =
    if not (distinct order)
    then err duplicate_names
    else if all (contains order) canonical_hand_order && all (contains canonical_hand_order) order
    then ok order
    else err not_canonical

module _ {A : Type 0} where
  -- `dict(zip(source, values))`, as a list of its items.
  unfoldable pub zip_names : List String → List A → List (String × A)
  zip_names [] vs = []
  zip_names (n ∷ ns) [] = []
  zip_names (n ∷ ns) (v ∷ vs) = (n, v) ∷ zip_names ns vs

  -- `by_name[name]`, or none for a KeyError.
  unfoldable pub lookup : String → List (String × A) → Option A
  lookup name [] = none
  lookup name ((n, v) ∷ rest) = if str_eq n name then some v else lookup name rest

  -- `[float(by_name[name]) for name in target]`
  unfoldable pub pick : List String → List (String × A) → Result Error (List A)
  unfolding lookup
  pick [] by_name = ok []
  pick (n ∷ ns) by_name =
      let rest = pick ns by_name in
      elim (lookup n by_name) [
        | none ↦ err missing_key
        | some v ↦ elim rest [ err e ↦ err e | ok vs ↦ ok (v ∷ vs) ]
      ]

module _ {F : Type 0} (float32 : F → F) where
  -- `_as_array` with an expected size
  unfoldable pub as_array : List F → ℕ → Result Error (List F)
  as_array values expected =
      if length values == expected then ok (map float32 values) else err bad_size

  -- `reorder_values`
  unfoldable pub reorder_values : List F → List String → List String → Result Error (List F)
  unfolding validate_order as_array zip_names pick
  reorder_values values source_order target_order = do
    source ← validate_order source_order
    target ← validate_order target_order
    array ← as_array values (length source)
    pick target (zip_names source array)

  unfoldable pub raw_to_canonical : List F → List String → Result Error (List F)
  unfolding reorder_values
  raw_to_canonical values raw_order = reorder_values values raw_order canonical_hand_order

  unfoldable pub canonical_to_raw : List F → List String → Result Error (List F)
  unfolding reorder_values
  canonical_to_raw values raw_order = reorder_values values canonical_hand_order raw_order
