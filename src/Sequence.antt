-- ===== src/Sequence.antt =====
-- src/teleoperation/sequence.py: which messages of a numbered stream are new.
pub mod Laws
use embodied_hand_lab.Prelude.{
  ℕ, Bool, Option, none, some, Result, ok, err, ltb, ◌==◌, if◌then◌else◌, List, [], ◌∷◌,
}
use embodied_hand_lab.Prelude.Int.{ℤ, pos, negsuc}

pub data SequenceDisposition : Type 0 where
  first new duplicate reordered : SequenceDisposition

-- What a caller may pass: an `int`, a `bool` (which Python counts as an int), or something else.
pub data Value : Type 0 where
  integer : ℤ → Value
  boolean : Bool → Value
  other : Value

pub data Error : Type 0 where
  not_a_sequence : Error

pub record SequenceTracker : Type 0 where
  pub last_sequence : Option ℕ

-- The body of `observe` behind its argument check.
unfoldable pub observe_number : SequenceTracker → ℕ → SequenceTracker × SequenceDisposition
observe_number t sequence = elim t.last_sequence [
  | none ↦ (record { last_sequence = some sequence }, first)
  | some last ↦
      if sequence == last
      then (t, duplicate)
      else if ltb sequence last
      then (t, reordered)
      else (record { last_sequence = some sequence }, new)
]

unfoldable pub observe :
    SequenceTracker → Value → SequenceTracker × Result Error SequenceDisposition
unfolding observe_number
observe t (integer (pos n)) = let (t', d) = observe_number t n in (t', ok d)
observe t (integer (negsuc n)) = (t, err not_a_sequence)
observe t (boolean b) = (t, err not_a_sequence)
observe t other = (t, err not_a_sequence)

unfoldable pub reset : SequenceTracker → SequenceTracker
reset t = record { last_sequence = none }

-- The messages of a stream that a client takes, those whose disposition is FIRST or NEW.
unfoldable pub accepted : SequenceTracker → List ℕ → List ℕ
accepted t [] = []
accepted t (n ∷ ns) =
    let (t', d) = observe_number t n in
    let rest = accepted t' ns in
    elim d [ first ↦ n ∷ rest | new ↦ n ∷ rest | duplicate ↦ rest | reordered ↦ rest ]
