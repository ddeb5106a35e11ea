-- ===== src/Serial/Commands/Guards.antt =====
-- What the commands of src/rh56_driver/serial_backend.py write and read back.
use embodied_hand_lab.Prelude.{
  ℕ, ◌<◌, ◌≡◌, ◌∷◌, ◌++◌, true, List, [], ok, err, arith, length, All, map, ap, concat, ◌∙◌, sym,
}
use mathlib.Core.List.{append-nil}
use embodied_hand_lab.Prelude.Int.{ℤ, pos}
use embodied_hand_lab.Serial.Words
use embodied_hand_lab.Serial.Words.{
  u16_list_to_bytes, u16_list_from_bytes, validate_vector, InRange, IsWord, as_word, map-as_word,
  u16_round_trip, length-u16_list_to_bytes,
}
use embodied_hand_lab.Serial.Frames.Splitting.{IsNoise}
use embodied_hand_lab.Serial.Registers.{Backend, read_register, write_register}
use embodied_hand_lab.Serial.Registers.Reads.{read_reply}
use embodied_hand_lab.Serial.Registers.Exchange.{read_register_returns}
use embodied_hand_lab.Serial.Commands.{bad_vector, set_vector, get_angles}

pub set_vector_refused :
    (address : ℕ) (b : Backend) (values : List ℤ) (chunks : List (List ℕ)) (e : Words.Error)
    → validate_vector values (pos 0) (pos 1000) ≡ err e
    → set_vector address b values chunks ≡ (b, err (bad_vector e))
unfolding set_vector
set_vector_refused address b values chunks e h = ground arith

pub set_vector_writes :
    (address : ℕ) (b : Backend) (values : List ℤ) (chunks : List (List ℕ))
    → validate_vector values (pos 0) (pos 1000) ≡ ok tt
    → (set_vector address b values chunks).0
      ≡ (write_register b address (u16_list_to_bytes values) chunks).0
unfolding set_vector
set_vector_writes address b values chunks h = ground arith

pub All-IsWord : (vs : List ℤ) → All (InRange (pos 0) (pos 1000)) vs → All IsWord vs
All-IsWord [] h = tt
All-IsWord (v ∷ vs) h = (ground arith, All-IsWord vs h.1)

get_angles_decodes :
    (b : Backend) (bytes : List ℕ) (chunks : List (List ℕ)) (vs : List ℕ)
    → (read_register b 1546 12 chunks).1 ≡ ok bytes
    → u16_list_from_bytes bytes 6 ≡ ok vs
    → (get_angles b chunks).1 ≡ ok vs
unfolding get_angles
get_angles_decodes b bytes chunks vs h k = ground arith

-- If the device holds six words and answers a read of ANGLE_ACT, with any noise before the reply,
-- any bytes behind it and any cutting into chunks, then `get_angles` returns these words modulo
-- 2 ^ 16. So six values from 0 to 65535 are returned unchanged.
pub get_angles_returns :
    (b : Backend) (vs : List ℤ) (noise tail : List ℕ) (chunks : List (List ℕ))
    → b.connected ≡ true
    → b.hand_id < 256
    → length vs ≡ 6
    → IsNoise noise
    → concat chunks ≡ noise ++ (read_reply b.hand_id 1546 (u16_list_to_bytes vs) ++ tail)
    → ((get_angles b chunks).1 ≡ ok (map as_word vs))
      × (All IsWord vs → map (λ n. pos n) (map as_word vs) ≡ vs)
get_angles_returns b vs noise tail chunks open_port id_ok six quiet delivered =
    let bytes = u16_list_to_bytes vs in
    let twelve : length bytes ≡ 12 = omega (arith, length-u16_list_to_bytes vs) in
    let read =
      read_register_returns b 1546 bytes noise tail chunks open_port id_ok (omega arith) quiet
        delivered in
    let decoded : u16_list_from_bytes bytes 6 ≡ ok (map as_word vs) =
      ap (λ xs. u16_list_from_bytes xs 6) (sym (append-nil bytes))
      ∙ ap (λ n. u16_list_from_bytes (bytes ++ []) n) (sym six)
      ∙ u16_round_trip vs [] in
    (
      get_angles_decodes b bytes chunks (map as_word vs)
          (ap (λ n. (read_register b 1546 n chunks).1) (sym twelve) ∙ read.0) decoded,
      map-as_word vs,
    )
