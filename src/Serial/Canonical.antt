-- ===== src/Serial/Canonical.antt =====
-- The commands of src/rh56_driver/serial_backend.py in canonical order: the finger values are brought
-- into the order of the protocol, rounded and sent, and what is read is brought back.
pub mod RoundTrip
use embodied_hand_lab.Prelude.{ℕ, String, List, [], ◌∷◌, Result, ok, err, Bool, map}
use embodied_hand_lab.Prelude.Int.{ℤ, pos}
use embodied_hand_lab.HandSchema
use embodied_hand_lab.HandSchema.{raw_to_canonical, canonical_to_raw}
use embodied_hand_lab.Serial.Registers.{Backend}
use embodied_hand_lab.Serial.Commands
use embodied_hand_lab.Serial.Commands.{
  set_speeds, set_forces, set_angles, get_angles, get_forces, get_currents,
}

-- Python's and numpy's numbers: `float32` rounds to single precision, `of_int` is `float(v)`, and
-- `to_int` is `int(round(v))`.
pub record Numbers : Type 1 where
  pub F : Type 0
  pub float32 : F → F
  pub of_int : ℤ → F
  pub to_int : F → ℤ

-- A ValueError of the order, of the gesture order, or what the command raises.
pub data Error : Type 0 where
  bad_order : HandSchema.Error → Error
  unsupported_gesture_order : Error
  command_error : Commands.Error → Error

abbrev pub lift {ℓ} : {A : Type ℓ} → Result Commands.Error A → Result Error A
lift (ok a) = ok a
lift (err e) = err (command_error e)

abbrev pub lift_order {ℓ} : {A : Type ℓ} → Result HandSchema.Error A → Result Error A
lift_order (ok a) = ok a
lift_order (err e) = err (bad_order e)

-- A method of the backend that sends a vector.
abbrev pub Setter : Type 0
Setter = Backend → List ℤ → List (List ℕ) → Backend × Result Commands.Error Bool

abbrev pub Getter : Type 0 → Type 0
Getter A = Backend → List (List ℕ) → Backend × Result Commands.Error (List A)

-- The configured `gesture_order`: a string, or a list of names.
pub data GestureOrder : Type 0 where
  canonical protocol raw unsupported : GestureOrder
  custom : List String → GestureOrder

module _ (numbers : Numbers) where
  open numbers use {F, float32, of_int, to_int}

  -- `[int(round(value)) for value in canonical_to_raw(values, raw_order=order)]`
  unfoldable pub ints_in_order : List String → List ℤ → Result HandSchema.Error (List ℤ)
  unfolding canonical_to_raw
  ints_in_order order values = elim (canonical_to_raw float32 (map of_int values) order) [
    | err e ↦ err e
    | ok ws ↦ ok (map to_int ws)
  ]

  -- `_canonical_to_protocol_ints`
  unfoldable pub canonical_to_protocol_ints : Backend → List ℤ → Result HandSchema.Error (List ℤ)
  unfolding ints_in_order
  canonical_to_protocol_ints b values = ints_in_order b.protocol_order values

  -- Send what the conversion gave, if it raised nothing.
  unfoldable pub send :
      Setter
      → Backend
      → Result HandSchema.Error (List ℤ)
      → List (List ℕ)
      → Backend × Result Error Bool
  send set b (err e) chunks = (b, err (bad_order e))
  send set b (ok values) chunks = let (b', r) = set b values chunks in (b', lift r)

  unfoldable pub set_canonical_speeds :
      Backend → List ℤ → List (List ℕ) → Backend × Result Error Bool
  unfolding send
  set_canonical_speeds b values = send set_speeds b (canonical_to_protocol_ints b values)

  unfoldable pub set_canonical_forces :
      Backend → List ℤ → List (List ℕ) → Backend × Result Error Bool
  unfolding send
  set_canonical_forces b values = send set_forces b (canonical_to_protocol_ints b values)

  unfoldable pub set_canonical_angles :
      Backend → List ℤ → List (List ℕ) → Backend × Result Error Bool
  unfolding send
  set_canonical_angles b values = send set_angles b (canonical_to_protocol_ints b values)

  -- `set_command_angles`
  unfoldable pub set_command_angles :
      GestureOrder → Backend → List ℤ → List (List ℕ) → Backend × Result Error Bool
  unfolding set_canonical_angles
  set_command_angles canonical b values chunks = set_canonical_angles b values chunks
  set_command_angles protocol b values chunks = send set_angles b (ok values) chunks
  set_command_angles raw b values chunks = send set_angles b (ok values) chunks
  set_command_angles unsupported b values chunks = (b, err unsupported_gesture_order)
  set_command_angles (custom order) b values chunks =
      send set_angles b (ints_in_order order values) chunks

  -- The words as floats in canonical order.
  unfoldable pub canonical_floats :
      {A : Type 0} → (A → F) → List String → Result Commands.Error (List A) → Result Error (List F)
  canonical_floats to_float order (err e) = err (command_error e)
  canonical_floats to_float order (ok vs) =
      lift_order (raw_to_canonical float32 (map to_float vs) order)

  -- Read, convert each word to a float, and bring the floats into canonical order.
  unfoldable pub receive :
      {A : Type 0} → Getter A → (A → F) → Backend → List (List ℕ) → Backend × Result Error (List F)
  receive get to_float b chunks =
      let (b', r) = get b chunks in (b', canonical_floats to_float b.protocol_order r)

  unfoldable pub get_canonical_angles : Backend → List (List ℕ) → Backend × Result Error (List F)
  unfolding receive
  get_canonical_angles = receive get_angles (λ n. of_int (pos n))

  unfoldable pub get_canonical_forces : Backend → List (List ℕ) → Backend × Result Error (List F)
  unfolding receive
  get_canonical_forces = receive get_forces of_int

  unfoldable pub get_canonical_currents : Backend → List (List ℕ) → Backend × Result Error (List F)
  unfolding receive
  get_canonical_currents = receive get_currents (λ n. of_int (pos n))
