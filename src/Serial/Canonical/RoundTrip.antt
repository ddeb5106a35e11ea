-- ===== src/Serial/Canonical/RoundTrip.antt =====
-- What the canonical commands of src/rh56_driver/serial_backend.py send, and what they read back.
use embodied_hand_lab.Prelude.{◌≡◌}
use embodied_hand_lab.Prelude.Int.{ℤ, pos}
use embodied_hand_lab.HandSchema
use embodied_hand_lab.Serial.Commands
use embodied_hand_lab.HandSchema.{canonical_to_raw, zip_names}
use embodied_hand_lab.Serial.Words.{InRange}
use embodied_hand_lab.Serial.Commands.{set_vector}
use embodied_hand_lab.Serial.Canonical.{Numbers}

module _ (numbers : Numbers) where
  open numbers use {F, float32, of_int, to_int}

  -- A float that stands for a command value, exactly.
  abbrev Exact : F → Type 0
  Exact w = (float32 (of_int (to_int w)) ≡ w) × InRange (pos 0) (pos 1000) (to_int w)

  -- Integers from 0 to 1000 survive single precision and rounding.
  abbrev pub IsExact : Type 0
  IsExact = (n : ℤ) → InRange (pos 0) (pos 1000) n → to_int (float32 (of_int n)) ≡ n
