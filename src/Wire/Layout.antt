-- ===== src/Wire/Layout.antt =====
-- Little-endian unsigned fields of fixed widths, as `struct.Struct("<...")` packs and unpacks them.
-- A field is given by its width in bytes. A double is given by its 64 bits, as a natural number.
pub mod Codec
use embodied_hand_lab.Prelude.{
  ℕ, zero, suc, ◌+◌, ◌*◌, ◌/◌, ◌%◌, ◌^◌, List, [], ◌∷◌, ◌++◌, Result, ok, err, if◌then◌else◌, ltb,
  length, take, drop, all, Bool,
}
use embodied_hand_lab.Prelude.Int.{ℤ, pos, negsuc}

-- `struct.error`: a number does not fit its field, or there are too few or too many numbers.
pub data Error : Type 0 where
  out_of_range bad_count : Error

-- The lowest `w` bytes of a number, the lowest first.
unfoldable pub bytes_of : ℕ → ℕ → List ℕ
bytes_of zero n = []
bytes_of (suc w) n = n % 256 ∷ bytes_of w (n / 256)

unfoldable pub number_of : List ℕ → ℕ
number_of [] = 0
number_of (b ∷ bs) = b + 256 * number_of bs

unfoldable pub pack_field : ℕ → ℤ → Result Error (List ℕ)
unfolding bytes_of
pack_field w (pos n) = if ltb n (256 ^ w) then ok (bytes_of w n) else err out_of_range
pack_field w (negsuc n) = err out_of_range

abbrev pub append_result : Result Error (List ℕ) → Result Error (List ℕ) → Result Error (List ℕ)
append_result (ok xs) (ok ys) = ok (xs ++ ys)
append_result (ok xs) (err e) = err e
append_result (err e) ys = err e

-- `Struct.pack`
unfoldable pub pack : List ℕ → List ℤ → Result Error (List ℕ)
pack [] [] = ok []
pack [] (v ∷ vs) = err bad_count
pack (w ∷ ws) [] = err bad_count
pack (w ∷ ws) (v ∷ vs) = append_result (pack_field w v) (pack ws vs)

-- `Struct.size`
abbrev pub size : List ℕ → ℕ
size [] = 0
size (w ∷ ws) = w + size ws

-- `Struct.unpack`, of as many bytes as the size
unfoldable pub unpack : List ℕ → List ℕ → List ℕ
unpack [] bytes = []
unpack (w ∷ ws) bytes = number_of (take w bytes) ∷ unpack ws (drop w bytes)
