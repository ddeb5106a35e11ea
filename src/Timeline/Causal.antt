-- ===== src/Timeline/Causal.antt =====
-- `CausalTimeline` of src/episode_dataset/timeline.py. The newest sample is the head of `items`: the
-- code reads its deque from the right.
use mathlib.Core.Path.{subst}
use mathlib.Core.Option.{some-injective}
use native.Mathlib.Nat.{le_refl}
use embodied_hand_lab.Prelude.{
  ◌↔◌, ℕ, suc, zero, ◌+◌, ◌≤◌, ◌<◌, ◌≡◌, Bool, true, false, not, Result, ok, err, leb, ltb,
  if◌then◌else◌, arith, Bool-cases, inl, inr, refl, Option, none, some, List, [], ◌∷◌, take, length,
  length-take, ◌&&◌, All,
}
use embodied_hand_lab.Prelude.Int.{ℤ, pos, pos_part, lebℤ, ltbℤ, sub_ℕ}

pub data Error : Type 0 where
  bad_age bad_capacity timestamp_regression : Error

pub record CausalTimeline (T : Type 0) : Type 0 where
  pub max_age_ns : ℕ
  pub capacity : ℕ
  pub items : List (ℕ × T)

pub data Reason : Type 0 where
  no_causal_sample source_sample_stale : Reason

pub record SourceSelection (T : Type 0) : Type 0 where
  pub value : Option T
  pub source_timestamp_ns : Option ℕ
  pub signed_offset_ns : Option ℤ
  pub valid : Bool
  pub stale : Bool
  pub reason : Option Reason

-- The constructor, with its ValueErrors.
unfoldable pub new : {T : Type 0} → ℤ → ℤ → Result Error (CausalTimeline T)
new max_age_ns capacity =
    if ltbℤ max_age_ns (pos 0)
    then err bad_age
    else if lebℤ capacity (pos 0)
    then err bad_capacity
    else ok (record { max_age_ns = pos_part max_age_ns; capacity = pos_part capacity; items = [] })

module _ {T : Type 0} where
  -- `self._items and timestamp_ns < self._items[-1][0]`
  abbrev pub regresses : ℕ → List (ℕ × T) → Bool
  regresses timestamp_ns [] = false
  regresses timestamp_ns ((last, _) ∷ _) = ltb timestamp_ns last

  -- A deque with `maxlen` drops its oldest item.
  unfoldable pub append : CausalTimeline T → ℕ → T → CausalTimeline T × Result Error (Unit {0})
  append t timestamp_ns value =
      if regresses timestamp_ns t.items
      then (t, err timestamp_regression)
      else (record t { items = take t.capacity ((timestamp_ns, value) ∷ t.items) }, ok tt)

  -- The loop over `reversed(self._items)`.
  unfoldable pub find : ℕ → (T → Bool) → List (ℕ × T) → Option (ℕ × T)
  find canonical predicate [] = none
  find canonical predicate ((timestamp_ns, value) ∷ rest) =
      if leb timestamp_ns canonical && predicate value
      then some (timestamp_ns, value)
      else find canonical predicate rest

  unfoldable pub selection : ℕ → ℕ → Option (ℕ × T) → SourceSelection T
  selection max_age_ns canonical none = record {
    value = none;
    source_timestamp_ns = none;
    signed_offset_ns = none;
    valid = false;
    stale = false;
    reason = some no_causal_sample;
  }
  selection max_age_ns canonical (some (timestamp_ns, value)) =
      let stale = ltb (timestamp_ns + max_age_ns) canonical in
      record {
        value = some value;
        source_timestamp_ns = some timestamp_ns;
        signed_offset_ns = some (sub_ℕ timestamp_ns canonical);
        valid = not stale;
        stale = stale;
        reason = if stale then some source_sample_stale else none;
      }

  unfoldable pub latest_matching_at_or_before :
      CausalTimeline T → ℕ → (T → Bool) → SourceSelection T
  unfolding find selection
  latest_matching_at_or_before t canonical predicate =
      selection t.max_age_ns canonical (find canonical predicate t.items)

  unfoldable pub latest_at_or_before : CausalTimeline T → ℕ → SourceSelection T
  unfolding latest_matching_at_or_before
  latest_at_or_before t canonical = latest_matching_at_or_before t canonical (λ _. true)

  -- Times fall from each item to the next, starting at `top` at most.
  abbrev pub Descending : ℕ → List (ℕ × T) → Type 0
  Descending top [] = Unit
  Descending top ((timestamp_ns, _) ∷ rest) = (timestamp_ns ≤ top) × Descending timestamp_ns rest

  -- Newest first, in order of time, and within the capacity.
  pub record IsValid (t : CausalTimeline T) : Type 0 where
    pub top : ℕ
    pub ordered : Descending top t.items
    pub bounded : length t.items ≤ t.capacity

  take-Descending : (n top : ℕ) (xs : List (ℕ × T)) → Descending top xs → Descending top (take n xs)
  take-Descending zero top xs h = tt
  take-Descending (suc n) top [] h = tt
  take-Descending (suc n) top ((at, v) ∷ xs) h = (h.0, take-Descending n at xs h.1)

  Descending-head :
      (top at : ℕ) (xs : List (ℕ × T))
      → Descending top xs
      → regresses at xs ≡ false
      → Descending at xs
  Descending-head top at [] h k = tt
  Descending-head top at ((b, v) ∷ xs) h k = (ground arith, h.1)

  -- Whatever is appended, in whatever order, the timeline stays in order of time and within its
  -- capacity.
  pub append-IsValid :
      (t : CausalTimeline T) (timestamp_ns : ℕ) (value : T)
      → IsValid t
      → IsValid (append t timestamp_ns value).0
  unfolding append
  append-IsValid t at value h = elim (Bool-cases (regresses at t.items)) [
    | inl back ↦ rw back h
    | inr on ↦ rw on (record {
      top = at;
      ordered =
          take-Descending t.capacity at ((at, value) ∷ t.items)
            (omega arith, Descending-head h.top at t.items h.ordered on);
      bounded = omega (arith, length-take t.capacity ((at, value) ∷ t.items));
    })
  ]

  -- A sample that is in time and matches.
  abbrev pub Matches : ℕ → (T → Bool) → ℕ × T → Type 0
  Matches canonical predicate (timestamp_ns, value) =
      (timestamp_ns ≤ canonical) × (predicate value ≡ true)

  -- Each sample in time that matches is at most as new as `limit`.
  abbrev pub NoLaterThan : ℕ → (T → Bool) → Option (ℕ × T) → ℕ × T → Type 0
  NoLaterThan canonical predicate none x = ¬ Matches canonical predicate x
  NoLaterThan canonical predicate (some (at, v)) x = Matches canonical predicate x → x.0 ≤ at

  found-Matches :
      (canonical : ℕ) (predicate : T → Bool) (at : ℕ) (v : T)
      → (leb at canonical && predicate v) ≡ true
      → Matches canonical predicate (at, v)
  found-Matches canonical predicate at v e = ground arith

  refused_fails :
      (canonical : ℕ) (predicate : T → Bool) (at : ℕ) (v : T)
      → (leb at canonical && predicate v) ≡ false
      → ¬ Matches canonical predicate (at, v)
  refused_fails canonical predicate at v e m = ground arith

  find_causal :
      (canonical : ℕ) (predicate : T → Bool) (xs : List (ℕ × T)) (x : ℕ × T)
      → find canonical predicate xs ≡ some x
      → Matches canonical predicate x
  unfolding find
  find_causal canonical predicate [] x h = absurd (ground arith)
  find_causal canonical predicate ((at, v) ∷ xs) x h =
      elim (Bool-cases (leb at canonical && predicate v)) [
        | inl e ↦
            subst (λ (y : ℕ × T). Matches canonical predicate y) (some-injective _ _ (rw e at h))
              (found-Matches canonical predicate at v e)
        | inr e ↦ find_causal canonical predicate xs x (rw e at h)
      ]

  No-NoLaterThan :
      (canonical : ℕ) (predicate : T → Bool) (o : Option (ℕ × T)) (x : ℕ × T)
      → ¬ Matches canonical predicate x
      → NoLaterThan canonical predicate o x
  No-NoLaterThan canonical predicate none x h = h
  No-NoLaterThan canonical predicate (some (at, v)) x h = λ m. absurd (h m)

  older-NoLaterThan :
      (canonical : ℕ) (predicate : T → Bool) (at : ℕ) (v : T) (top : ℕ) (xs : List (ℕ × T))
      → top ≤ at
      → Descending top xs
      → All (NoLaterThan canonical predicate (some (at, v))) xs
  older-NoLaterThan canonical predicate at v top [] le h = tt
  older-NoLaterThan canonical predicate at v top ((b, w) ∷ xs) le h =
      (λ m. omega arith, older-NoLaterThan canonical predicate at v b xs (omega arith) h.1)

  find_latest :
      (canonical top : ℕ) (predicate : T → Bool) (xs : List (ℕ × T)) (o : Option (ℕ × T))
      → find canonical predicate xs ≡ o
      → Descending top xs
      → All (NoLaterThan canonical predicate o) xs
  unfolding find
  find_latest canonical top predicate [] o eq h = tt
  find_latest canonical top predicate ((at, v) ∷ xs) o eq h =
      elim (Bool-cases (leb at canonical && predicate v)) [
        | inl e ↦
            subst (λ (r : Option (ℕ × T)). All (NoLaterThan canonical predicate r) ((at, v) ∷ xs))
              (rw e at eq)
              (λ m. le_refl at, older-NoLaterThan canonical predicate at v at xs (le_refl at) h.1)
        | inr e ↦ (
          No-NoLaterThan canonical predicate o (at, v) (refused_fails canonical predicate at v e),
          find_latest canonical at predicate xs o (rw e at eq) h.1,
        )
      ]

  -- What is selected from a timeline in order is causal and the latest: it is not after the canonical
  -- time and matches, every item that does so is no newer, and with nothing selected no item does so.
  pub find_lem :
      (t : CausalTimeline T) (canonical : ℕ) (predicate : T → Bool)
      → IsValid t
      → ((x : ℕ × T) → find canonical predicate t.items ≡ some x → Matches canonical predicate x)
        × All (NoLaterThan canonical predicate (find canonical predicate t.items)) t.items
  find_lem t canonical predicate h = (
    find_causal canonical predicate t.items,
    find_latest canonical h.top predicate t.items _ refl h.ordered,
  )

  -- A selection is valid exactly if a sample was found and its age is within the bound; a sample that
  -- is too old is still returned, and marked as stale. The reason is empty exactly if it is valid.
  pub selection_valid_iff :
      (max_age_ns canonical : ℕ) (o : Option (ℕ × T))
      → let s = selection max_age_ns canonical o in
        ((s.valid ≡ true)
          ↔ ((x : ℕ × T) × (o ≡ some x) × (s.value ≡ some x.1) × (canonical ≤ x.0 + max_age_ns)))
        × ((s.stale ≡ true)
            ↔ ((x : ℕ × T) × (o ≡ some x) × (s.value ≡ some x.1) × (x.0 + max_age_ns < canonical)))
        × ((s.reason ≡ none) ↔ (s.valid ≡ true))
  unfolding selection
  selection_valid_iff max_age_ns canonical none = (
    (λ h. absurd (ground arith), λ (x, e, v, a). cc),
    (λ h. absurd (ground arith), λ (x, e, v, a). cc),
    (λ h. cc, λ h. cc),
  )
  selection_valid_iff max_age_ns canonical (some (at, v)) = (
    (λ h. ((at, v), refl, refl, ground arith), λ h. ground arith),
    (λ h. ((at, v), refl, refl, ground arith), λ h. ground arith),
    (λ h. ground arith, λ h. ground arith),
  )
