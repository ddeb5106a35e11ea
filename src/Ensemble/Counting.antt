-- ===== src/Ensemble/Counting.antt =====
-- What the operations on `_by_tick` of src/embodiment_core/act_temporal_executor.py do to its ticks and
-- to the number of its entries.
use embodied_hand_lab.Prelude.{
  ℕ, suc, ◌+◌, ◌≤◌, ◌<◌, ◌≡◌, ◌≢◌, ◌⊎◌, refl, some, List, [], ◌∷◌, ◌++◌, arith, ◌==◌, ltb, length,
  All, length-append, inl, inr, Bool-cases, ==_iff, if_keeps, Option-cases, if◌then◌else◌,
}
use embodied_hand_lab.Ensemble.Buckets.{
  Entry, Buckets, add_entry, oldest_tick, drop_first, expired, keep_from, entries_at, without,
  total, Fresh, IsDict, Every,
}

module _ {A : Type 0} where
  -- The dictionary has an item for the tick.
  abbrev pub Has : ℕ → Buckets A → Type 0
  Has tick [] = ⊥
  Has tick ((t, es) ∷ rest) = (t ≡ tick) ⊎ Has tick rest

  -- Every tick of the dictionary is at least the bound.
  abbrev pub From : ℕ → Buckets A → Type 0
  From tick [] = Unit
  From tick ((t, es) ∷ rest) = (tick ≤ t) × From tick rest

  pub total-add_entry :
      (tick : ℕ) (e : Entry A) (d : Buckets A) → total (add_entry tick e d) ≡ total d + 1
  unfolding add_entry
  total-add_entry tick e [] = refl
  total-add_entry tick e ((t, es) ∷ rest) =
      let h = total-add_entry tick e rest in let k = length-append es (e ∷ []) in ground arith

  Fresh-add_entry :
      (u tick : ℕ) (e : Entry A) (d : Buckets A)
      → tick ≢ u
      → Fresh u d
      → Fresh u (add_entry tick e d)
  unfolding add_entry
  Fresh-add_entry u tick e [] n h = (n, tt)
  Fresh-add_entry u tick e ((t, es) ∷ rest) n h =
      let k = Fresh-add_entry u tick e rest n h.1 in ground arith

  pub add_entry-IsDict :
      (tick : ℕ) (e : Entry A) (d : Buckets A) → IsDict d → IsDict (add_entry tick e d)
  unfolding add_entry
  add_entry-IsDict tick e [] h = (omega arith, tt, tt)
  add_entry-IsDict tick e ((t, es) ∷ rest) h =
      let k = add_entry-IsDict tick e rest h.2 in
      let f = Fresh-add_entry t tick e rest in let l = length-append es (e ∷ []) in ground arith

  All-snoc :
      (P : Entry A → Type 0) (es : List (Entry A)) (e : Entry A)
      → All P es
      → P e
      → All P (es ++ e ∷ [])
  All-snoc P [] e h p = (p, tt)
  All-snoc P (x ∷ es) e h p = (h.0, All-snoc P es e h.1 p)

  pub add_entry-Every :
      (P : ℕ → Entry A → Type 0) (tick : ℕ) (e : Entry A) (d : Buckets A)
      → P tick e
      → Every P d
      → Every P (add_entry tick e d)
  unfolding add_entry
  add_entry-Every P tick e [] p h = ((p, tt), tt)
  add_entry-Every P tick e ((t, es) ∷ rest) p h =
      let k = add_entry-Every P tick e rest p h.1 in let l = All-snoc (P tick) es e in ground arith

  oldest_tick-Has : (d : Buckets A) (t : ℕ) → oldest_tick d ≡ some t → Has t d
  unfolding oldest_tick
  oldest_tick-Has [] t h = absurd cc
  oldest_tick-Has ((u, es) ∷ rest) t h = elim (Option-cases (oldest_tick rest)) [
    | inl e ↦ ground arith
    | inr (v, e) ↦ let k = oldest_tick-Has rest v e in ground arith
  ]

  pub oldest_tick-some : (d : Buckets A) → 0 < total d → (t : ℕ) × (oldest_tick d ≡ some t)
  unfolding oldest_tick
  oldest_tick-some [] h = absurd (omega arith)
  oldest_tick-some ((u, es) ∷ rest) h = elim (Option-cases (oldest_tick rest)) [
    | inl e ↦ (u, ground arith)
    | inr (v, e) ↦ (if ltb v u then v else u, ground arith)
  ]

  Fresh-drop_first :
      (u tick : ℕ) (d d' : Buckets A) → Fresh u d → drop_first tick d ≡ some d' → Fresh u d'
  unfolding drop_first
  Fresh-drop_first u tick [] d' f h = absurd cc
  Fresh-drop_first u tick ((t, es) ∷ rest) d' f h = elim (Option-cases (drop_first tick rest)) [
    | inl e ↦ ground arith
    | inr (r, e) ↦ let k = Fresh-drop_first u tick rest r f.1 e in ground arith
  ]

  drop_first-Has :
      (P : ℕ → Entry A → Type 0) (tick : ℕ) (d : Buckets A)
      → IsDict d
      → Every P d
      → Has tick d
      → (d' : Buckets A) × (drop_first tick d ≡ some d')
        × (total d ≡ total d' + 1)
        × IsDict d'
        × Every P d'
  unfolding drop_first
  drop_first-Has P tick [] h v m = absurd m
  drop_first-Has P tick ((t, []) ∷ rest) h v m = absurd (omega (arith, h.0))
  drop_first-Has P tick ((t, e ∷ []) ∷ rest) h v m = elim (Bool-cases (t == tick)) [
    | inl k ↦ (rest, rw k, omega arith, h.2, v.1)
    | inr k ↦
        let (r, q, n, i, w) = drop_first-Has P tick rest h.2 v.1 (ground arith) in
        let f = Fresh-drop_first t tick rest r h.1 q in
        ((t, e ∷ []) ∷ r, ground arith, omega (arith, n), (h.0, f, i), (v.0, w))
  ]
  drop_first-Has P tick ((t, e ∷ e' ∷ es) ∷ rest) h v m = elim (Bool-cases (t == tick)) [
    | inl k ↦ ((t, e' ∷ es) ∷ rest, rw k, omega arith, (omega arith, h.1, h.2), (v.0.1, v.1))
    | inr k ↦
        let (r, q, n, i, w) = drop_first-Has P tick rest h.2 v.1 (ground arith) in
        let f = Fresh-drop_first t tick rest r h.1 q in
        ((t, e ∷ e' ∷ es) ∷ r, ground arith, omega (arith, n), (h.0, f, i), (v.0, w))
  ]

  pub expired-total :
      (tick : ℕ) (d : Buckets A) → expired tick d + total (keep_from tick d) ≡ total d
  unfolding expired keep_from
  expired-total tick [] = refl
  expired-total tick ((t, es) ∷ rest) = let h = expired-total tick rest in ground arith

  Fresh-keep_from : (u tick : ℕ) (d : Buckets A) → Fresh u d → Fresh u (keep_from tick d)
  unfolding keep_from
  Fresh-keep_from u tick [] h = tt
  Fresh-keep_from u tick ((t, es) ∷ rest) h =
      let k = Fresh-keep_from u tick rest h.1 in ground arith

  pub keep_from-IsDict : (tick : ℕ) (d : Buckets A) → IsDict d → IsDict (keep_from tick d)
  unfolding keep_from
  keep_from-IsDict tick [] h = tt
  keep_from-IsDict tick ((t, es) ∷ rest) h =
      let k = keep_from-IsDict tick rest h.2 in
      let f = Fresh-keep_from t tick rest h.1 in ground arith

  pub keep_from-From : (tick : ℕ) (d : Buckets A) → From tick (keep_from tick d)
  unfolding keep_from
  keep_from-From tick [] = tt
  keep_from-From tick ((t, es) ∷ rest) = let k = keep_from-From tick rest in ground arith

  pub keep_from-Every :
      (P : ℕ → Entry A → Type 0) (tick : ℕ) (d : Buckets A) → Every P d → Every P (keep_from tick d)
  unfolding keep_from
  keep_from-Every P tick [] h = tt
  keep_from-Every P tick ((t, es) ∷ rest) h =
      let k = keep_from-Every P tick rest h.1 in
      if_keeps (Every P) (ltb t tick) (keep_from tick rest) ((t, es) ∷ keep_from tick rest) k
        (h.0, k)

  pub without-total :
      (tick : ℕ) (d : Buckets A) → length (entries_at tick d) + total (without tick d) ≡ total d
  unfolding entries_at without
  without-total tick [] = refl
  without-total tick ((t, es) ∷ rest) = let h = without-total tick rest in ground arith

  Fresh-without : (u tick : ℕ) (d : Buckets A) → Fresh u d → Fresh u (without tick d)
  unfolding without
  Fresh-without u tick [] h = tt
  Fresh-without u tick ((t, es) ∷ rest) h = let k = Fresh-without u tick rest h.1 in ground arith

  pub without-IsDict : (tick : ℕ) (d : Buckets A) → IsDict d → IsDict (without tick d)
  unfolding without
  without-IsDict tick [] h = tt
  without-IsDict tick ((t, es) ∷ rest) h =
      let k = without-IsDict tick rest h.2 in let f = Fresh-without t tick rest h.1 in ground arith

  pub without-Every :
      (P : ℕ → Entry A → Type 0) (tick : ℕ) (d : Buckets A) → Every P d → Every P (without tick d)
  unfolding without
  without-Every P tick [] h = tt
  without-Every P tick ((t, es) ∷ rest) h =
      let k = without-Every P tick rest h.1 in
      if_keeps (Every P) (t == tick) rest ((t, es) ∷ without tick rest) h.1 (h.0, k)

  pub entries_at-All :
      (P : ℕ → Entry A → Type 0) (tick : ℕ) (d : Buckets A)
      → Every P d
      → All (P tick) (entries_at tick d)
  unfolding entries_at
  entries_at-All P tick [] h = tt
  entries_at-All P tick ((t, es) ∷ rest) h = elim (Bool-cases (t == tick)) [
    | inl e ↦ rw e (rw (← (==_iff t tick).0 e) h.0)
    | inr e ↦ rw e (entries_at-All P tick rest h.1)
  ]

  Fresh-From : (tick : ℕ) (d : Buckets A) → Fresh tick d → From tick d → From (suc tick) d
  Fresh-From tick [] h f = tt
  Fresh-From tick ((t, es) ∷ rest) h f = let k = Fresh-From tick rest h.1 f.1 in ground arith

  -- Without a tick, ticks from it on are ticks after it.
  pub without-From :
      (tick : ℕ) (d : Buckets A) → IsDict d → From tick d → From (suc tick) (without tick d)
  unfolding without
  without-From tick [] h f = tt
  without-From tick ((t, es) ∷ rest) h f = elim (Bool-cases (t == tick)) [
    | inl e ↦ rw e (Fresh-From tick rest (rw (← (==_iff t tick).0 e) h.1) f.1)
    | inr e ↦ let k = without-From tick rest h.2 f.1 in ground arith
  ]

  pub drop_oldest_first :
      (P : ℕ → Entry A → Type 0) (d : Buckets A)
      → IsDict d
      → Every P d
      → 0 < total d
      → (t : ℕ) × (d' : Buckets A) × (oldest_tick d ≡ some t)
        × (drop_first t d ≡ some d')
        × (total d ≡ total d' + 1)
        × IsDict d'
        × Every P d'
  drop_oldest_first P d h v n =
      let (t, e) = oldest_tick-some d n in
      let (d', q, m, i, w) = drop_first-Has P t d h v (oldest_tick-Has d t e) in
      (t, d', e, q, m, i, w)
