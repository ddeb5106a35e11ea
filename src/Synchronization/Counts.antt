-- ===== src/Synchronization/Counts.antt =====
-- `_validity_counts` of src/episode_dataset/synchronization.py, beside a count of each key by itself.
use embodied_hand_lab.Prelude.{
  ℕ, ◌+◌, ◌≡◌, Bool, true, ◌&&◌, List, [], ◌∷◌, arith, refl, if◌then◌else◌,
}
use embodied_hand_lab.Synchronization.Report.{
  Key, same_key, SyncRow, count_key, count_all, validity_counts_from, validity_counts, jaka,
  rh56_position, rh56_force, camera_workspace, camera_wrist,
}

-- `counts.get(key, 0)`
abbrev pub count_of : Key → List (Key × ℕ) → ℕ
count_of k [] = 0
count_of k ((j, n) ∷ rest) = if same_key k j then n else count_of k rest

-- How often the key stands with true.
abbrev pub true_count : Key → List (Key × Bool) → ℕ
true_count k [] = 0
true_count k ((j, valid) ∷ rest) = (if same_key k j && valid then 1 else 0) + true_count k rest

same_key_refl : (k : Key) → same_key k k ≡ true
same_key_refl jaka = refl
same_key_refl rh56_position = refl
same_key_refl rh56_force = refl
same_key_refl camera_workspace = refl
same_key_refl camera_wrist = refl

same_key→≡ : (j k : Key) → same_key j k ≡ true → j ≡ k
same_key→≡ j k h = ground arith

count_of-count_key :
    (k j : Key) (valid : Bool) (counts : List (Key × ℕ))
    → count_of k (count_key j valid counts)
      ≡ count_of k counts + (if same_key k j && valid then 1 else 0)
unfolding count_key
count_of-count_key k j valid [] = ground arith
count_of-count_key k j valid ((i, n) ∷ rest) = ground (
  arith,
  same_key→≡ j i,
  same_key→≡ k i,
  same_key→≡ k j,
  same_key_refl k,
  same_key_refl j,
  count_of-count_key k j valid rest,
)

count_of-count_all :
    (k : Key) (validity : List (Key × Bool)) (counts : List (Key × ℕ))
    → count_of k (count_all validity counts) ≡ count_of k counts + true_count k validity
unfolding count_all
count_of-count_all k [] counts = omega arith
count_of-count_all k ((j, valid) ∷ rest) counts = omega (
  arith,
  count_of-count_all k rest (count_key j valid counts),
  count_of-count_key k j valid counts,
)

module _ {A D : Type 0} where
  abbrev pub total : Key → List (SyncRow A D) → ℕ
  total k [] = 0
  total k (r ∷ rs) = true_count k r.validity + total k rs

  counts_from :
      (k : Key) (counts : List (Key × ℕ)) (rows : List (SyncRow A D))
      → count_of k (validity_counts_from counts rows) ≡ count_of k counts + total k rows
  unfolding validity_counts_from
  counts_from k counts [] = omega arith
  counts_from k counts (r ∷ rs) = omega (
    arith,
    counts_from k (count_all r.validity counts) rs,
    count_of-count_all k r.validity counts,
  )

  -- For every key, the dictionary holds how often the key is true over all rows, and zero or nothing
  -- for a key that never is.
  pub validity_counts-eq-total :
      (k : Key) (rows : List (SyncRow A D)) → count_of k (validity_counts rows) ≡ total k rows
  unfolding validity_counts
  validity_counts-eq-total k rows = omega (arith, counts_from k [] rows)
