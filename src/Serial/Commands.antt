-- ===== src/Serial/Commands.antt =====
-- The commands of src/rh56_driver/serial_backend.py in protocol order: each checks its vector, and
-- writes it as bytes to a register.
pub mod Guards
use embodied_hand_lab.Prelude.{ℕ, List, [], ◌∷◌, Result, ok, err, Bool, map}
use embodied_hand_lab.Prelude.Int.{ℤ, pos}
use embodied_hand_lab.Serial.Words
use embodied_hand_lab.Serial.Words.{
  u16_list_to_bytes, u16_list_from_bytes, s16_list_from_bytes, validate_vector,
}
use embodied_hand_lab.Serial.Registers
use embodied_hand_lab.Serial.Registers.{Backend, read_register, write_register}

-- A ValueError of the vector, or what the transaction raises.
pub data Error : Type 0 where
  bad_vector : Words.Error → Error
  transaction : Registers.Error → Error

abbrev pub lift {ℓ} : {A : Type ℓ} → Result Registers.Error A → Result Error A
lift (ok a) = ok a
lift (err e) = err (transaction e)

-- `self._validate_vector(values, 0, 1000)` and the write.
unfoldable pub set_vector : ℕ → Backend → List ℤ → List (List ℕ) → Backend × Result Error Bool
set_vector address b values chunks = elim (validate_vector values (pos 0) (pos 1000)) [
  | err e ↦ (b, err (bad_vector e))
  | ok _ ↦ let (b', r) = write_register b address (u16_list_to_bytes values) chunks in (b', lift r)
]

unfoldable pub set_speeds : Backend → List ℤ → List (List ℕ) → Backend × Result Error Bool
unfolding set_vector
set_speeds = set_vector 1522

unfoldable pub set_forces : Backend → List ℤ → List (List ℕ) → Backend × Result Error Bool
unfolding set_vector
set_forces = set_vector 1498

unfoldable pub set_angles : Backend → List ℤ → List (List ℕ) → Backend × Result Error Bool
unfolding set_vector
set_angles = set_vector 1486

unfoldable pub clear_error : Backend → List (List ℕ) → Backend × Result Registers.Error Bool
clear_error b = write_register b 1004 (1 ∷ [])

unfoldable pub calibrate_force_sensors :
    Backend → List (List ℕ) → Backend × Result Registers.Error Bool
calibrate_force_sensors b = write_register b 1009 (1 ∷ [])

abbrev words {ℓ} :
    {A : Type ℓ}
    → (List ℕ → ℕ → Result Words.Error (List A))
    → Result Registers.Error (List ℕ)
    → Result Error (List A)
words decode (err e) = err (transaction e)
words decode (ok bytes) = elim (decode bytes 6) [
  | err e ↦ err (bad_vector e)
  | ok values ↦ ok values
]

-- `get_angles`, whose conversion of each word to a float is exact.
unfoldable pub get_angles : Backend → List (List ℕ) → Backend × Result Error (List ℕ)
get_angles b chunks =
    let (b', r) = read_register b 1546 12 chunks in (b', words u16_list_from_bytes r)

unfoldable pub get_forces : Backend → List (List ℕ) → Backend × Result Error (List ℤ)
get_forces b chunks =
    let (b', r) = read_register b 1582 12 chunks in (b', words s16_list_from_bytes r)

unfoldable pub get_currents : Backend → List (List ℕ) → Backend × Result Error (List ℕ)
get_currents b chunks =
    let (b', r) = read_register b 1594 12 chunks in (b', words u16_list_from_bytes r)
