-- ===== src/Ensemble/Buckets.antt =====
-- The dictionary `_by_tick` of src/embodiment_core/act_temporal_executor.py, as a list of its items in
-- the order of insertion, and the sort of the candidates for a tick.
use embodied_hand_lab.Prelude.{
  ℕ, ◌+◌, ◌<◌, ◌≡◌, ◌≢◌, Bool, true, ◌&&◌, ◌||◌, Option, none, some, List, [], ◌∷◌, ◌++◌,
  if◌then◌else◌, ◌==◌, leb, ltb, length, All,
}

-- `TemporalPrediction`; the rows of its chunk are the actions for the ticks after the query.
pub record TemporalPrediction (A : Type 0) : Type 0 where
  pub query_id : ℕ
  pub query_timestamp_ns : ℕ
  pub query_command_tick : ℕ
  pub chunk : ℕ → A

-- A candidate `(prediction, horizon)`.
abbrev pub Entry : Type 0 → Type 0
Entry A = TemporalPrediction A × ℕ

abbrev pub Buckets : Type 0 → Type 0
Buckets A = List (ℕ × List (Entry A))

module _ {A : Type 0} where
  -- `self._by_tick.setdefault(tick, []).append(entry)`
  unfoldable pub add_entry : ℕ → Entry A → Buckets A → Buckets A
  add_entry tick e [] = (tick, e ∷ []) ∷ []
  add_entry tick e ((t, es) ∷ rest) =
      if t == tick then (t, es ++ e ∷ []) ∷ rest else (t, es) ∷ add_entry tick e rest

  -- `min(self._by_tick)`, which raises on an empty dictionary.
  unfoldable pub oldest_tick : Buckets A → Option ℕ
  oldest_tick [] = none
  oldest_tick ((t, _) ∷ rest) = elim (oldest_tick rest) [
    | none ↦ some t
    | some u ↦ some (if ltb u t then u else t)
  ]

  -- `entries.pop(0)` for the entries of a tick, and `del` if none is left; `none` is an exception.
  unfoldable pub drop_first : ℕ → Buckets A → Option (Buckets A)
  drop_first tick [] = none
  drop_first tick ((t, es) ∷ rest) =
      let later = drop_first tick rest in
      if t == tick
      then elim es [ [] ↦ none | e ∷ [] ↦ some rest | e ∷ f ∷ fs ↦ some ((t, f ∷ fs) ∷ rest) ]
      else elim later [ none ↦ none | some rest' ↦ some ((t, es) ∷ rest') ]

  -- The entries of the ticks before `tick`, counted, and the items that stay.
  unfoldable pub expired : ℕ → Buckets A → ℕ
  expired tick [] = 0
  expired tick ((t, es) ∷ rest) =
      if ltb t tick then length es + expired tick rest else expired tick rest

  unfoldable pub keep_from : ℕ → Buckets A → Buckets A
  keep_from tick [] = []
  keep_from tick ((t, es) ∷ rest) =
      if ltb t tick then keep_from tick rest else (t, es) ∷ keep_from tick rest

  -- `self._by_tick.pop(tick, [])`: the entries, and the dictionary without the tick.
  unfoldable pub entries_at : ℕ → Buckets A → List (Entry A)
  entries_at tick [] = []
  entries_at tick ((t, es) ∷ rest) = if t == tick then es else entries_at tick rest

  unfoldable pub without : ℕ → Buckets A → Buckets A
  without tick [] = []
  without tick ((t, es) ∷ rest) = if t == tick then rest else (t, es) ∷ without tick rest

  -- The order of the sort key `(query_command_tick, query_id)`.
  unfoldable pub key_le : Entry A → Entry A → Bool
  key_le a b =
      ltb a.0.query_command_tick b.0.query_command_tick
      || (a.0.query_command_tick == b.0.query_command_tick && leb a.0.query_id b.0.query_id)

  -- `candidates.sort(key=...)`, which is stable.
  unfoldable pub insert : Entry A → List (Entry A) → List (Entry A)
  insert e [] = e ∷ []
  insert e (f ∷ fs) = if key_le e f then e ∷ f ∷ fs else f ∷ insert e fs

  unfoldable pub sort : List (Entry A) → List (Entry A)
  sort [] = []
  sort (e ∷ es) = insert e (sort es)

  -- The number of entries in all buckets.
  abbrev pub total : Buckets A → ℕ
  total [] = 0
  total ((t, es) ∷ rest) = length es + total rest

  -- No tick has two items, and each item holds an entry.
  abbrev pub Fresh : ℕ → Buckets A → Type 0
  Fresh tick [] = Unit
  Fresh tick ((t, es) ∷ rest) = (t ≢ tick) × Fresh tick rest

  abbrev pub IsDict : Buckets A → Type 0
  IsDict [] = Unit
  IsDict ((t, es) ∷ rest) = (0 < length es) × Fresh t rest × IsDict rest

  -- A property of a tick and an entry, for every entry under its tick.
  abbrev pub Every : (ℕ → Entry A → Type 0) → Buckets A → Type 0
  Every P [] = Unit
  Every P ((t, es) ∷ rest) = All (P t) es × Every P rest

  -- The entries stand in the order of their keys.
  abbrev pub IsSorted : List (Entry A) → Type 0
  IsSorted [] = Unit
  IsSorted (e ∷ []) = Unit
  IsSorted (e ∷ f ∷ fs) = (key_le e f ≡ true) × IsSorted (f ∷ fs)
