-- ===== src/Tests/Fingers.antt =====
-- Finger values in the orders of src/rh56_driver/hand_schema.py, with integers for floats.
use embodied_hand_lab.Prelude.{ℕ, ◌≡◌, refl, List, [], ◌∷◌, ok}
use embodied_hand_lab.Prelude.Int.{ℤ, pos}
use embodied_hand_lab.HandSchema.{
  canonical_hand_order, rh56_internal_order, reorder_values, validate_order,
}
use embodied_hand_lab.HandSchema.Names.{IsOrder}
use embodied_hand_lab.Serial.Registers.Reads.{read_reply}
use embodied_hand_lab.Serial.Canonical.{Numbers}

abbrev exact_numbers : Numbers
exact_numbers = record { F = ℤ; float32 = λ n. n; of_int = λ n. n; to_int = λ n. n }

abbrev fingers : List ℤ
fingers = pos 10 ∷ pos 20 ∷ pos 30 ∷ pos 40 ∷ pos 1000 ∷ pos 0 ∷ []

internal-IsOrder : IsOrder rh56_internal_order
unfolding validate_order
internal-IsOrder = refl

from_internal :
    reorder_values (λ (n : ℤ). n) fingers rh56_internal_order canonical_hand_order
    ≡ ok (pos 30 ∷ pos 40 ∷ pos 1000 ∷ pos 0 ∷ pos 10 ∷ pos 20 ∷ [])
unfolding reorder_values validate_order
from_internal = refl

-- A device that answers in one chunk behind a byte of noise.
abbrev answer : List ℕ → List (List ℕ)
answer bytes = (7 ∷ read_reply 1 1546 bytes) ∷ []
