-- ===== src/Ensemble/Runs.antt =====
-- Any sequence of calls of the ensemble of src/embodiment_core/act_temporal_executor.py.
use embodied_hand_lab.Prelude.{
  true, ℕ, ◌≡◌, false, List, [], ◌∷◌, ok, err, arith, refl, inl, inr, Bool-cases, Option,
}
use embodied_hand_lab.Prelude.Int.{ℤ}
use embodied_hand_lab.Float.{Float}
use embodied_hand_lab.Ensemble.Executor.{
  Ensembler, Chunk, select, new, reset, add_prediction, bad_chunk,
}
use embodied_hand_lab.Ensemble.Invariant.{IsValid, fits, add_prediction_returns}
use embodied_hand_lab.Ensemble.Contributors.{select_lem}

-- A call of the ensemble.
pub data Call (A : Type 0) : Type 0 where
  add_call : ℕ → ℕ → ℕ → Chunk A → Call A
  select_call : ℕ → Call A
  reset_call : Call A

module _ {A W : Type 0} (weight : ℕ → ℕ → W) (average : List (A × W) → A) where
  -- The ensemble after a call; an exception of `add_prediction` stands before its first change.
  unfoldable pub apply : Ensembler A → Call A → Ensembler A
  apply e (add_call query_id timestamp tick chunk) =
      elim (add_prediction e query_id timestamp tick chunk) [ err x ↦ e | ok (e', n) ↦ e' ]
  apply e (select_call tick) = (select weight average e tick).0
  apply e reset_call = reset e

  unfoldable pub run : Ensembler A → List (Call A) → Ensembler A
  run e [] = e
  run e (x ∷ xs) = run (apply e x) xs

  add_prediction-refused :
      (e : Ensembler A) (query_id timestamp tick : ℕ) (chunk : Chunk A)
      → fits e chunk ≡ false
      → add_prediction e query_id timestamp tick chunk ≡ err bad_chunk
  unfolding add_prediction
  add_prediction-refused e query_id timestamp tick chunk h = rw h refl

  apply-IsValid : (e : Ensembler A) (x : Call A) → IsValid e → IsValid (apply e x)
  unfolding apply reset
  apply-IsValid e (add_call query_id timestamp tick chunk) h = elim (Bool-cases (fits e chunk)) [
    | inl good ↦
        let (e', q, v, kept, cut, only, all) =
          add_prediction_returns e query_id timestamp tick chunk (λ t x. true) h good in
        rw (apply, q) v
    | inr bad ↦ rw (apply, add_prediction-refused e query_id timestamp tick chunk bad) h
  ]
  apply-IsValid e (select_call tick) h = (select_lem weight average e tick (λ n t h a. true) h).5
  apply-IsValid e reset_call h = record {
    loose = record {
      count = refl;
      dict = tt;
      timed = tt;
      accounted = omega (arith, h.loose.accounted);
    };
    bounded = omega arith;
  }

  run-IsValid_from : (e : Ensembler A) (xs : List (Call A)) → IsValid e → IsValid (run e xs)
  unfolding run
  run-IsValid_from e [] h = h
  run-IsValid_from e (x ∷ xs) h = run-IsValid_from (apply e x) xs (apply-IsValid e x h)

  new-IsValid :
      (action_dim chunk_size : ℤ) (coefficient : Float) (horizon age : Option ℤ) (capacity : ℤ)
      (e : Ensembler A)
      → new action_dim chunk_size coefficient horizon age capacity ≡ ok e
      → IsValid e
  unfolding new
  new-IsValid action_dim chunk_size coefficient horizon age capacity e h = ground arith

  -- After any calls of an ensemble that the constructor made, `_entry_count` counts the entries of
  -- `_by_tick` and is at most `capacity`, every entry stands under the tick that its row is for,
  -- and the stored, dropped and expired points together are at most the points added.
  pub ensemble_run-IsValid :
      (action_dim chunk_size : ℤ) (coefficient : Float) (horizon age : Option ℤ) (capacity : ℤ)
      (e : Ensembler A) (xs : List (Call A))
      → new action_dim chunk_size coefficient horizon age capacity ≡ ok e
      → IsValid (run e xs)
  ensemble_run-IsValid action_dim chunk_size coefficient horizon age capacity e xs h =
      run-IsValid_from e xs (new-IsValid action_dim chunk_size coefficient horizon age capacity e h)
