-- ===== src/Serial/Words.antt =====
-- The 16-bit words of src/rh56_driver/serial_backend.py. A command may hold any Python integer;
-- `value & 0xFF` and `(value >> 8) & 0xFF` of a negative one are the bytes of its two's complement.
use embodied_hand_lab.Prelude.{
  ℕ, zero, suc, ◌+◌, ◌*◌, ◌/◌, ◌%◌, ◌-◌, ◌≤◌, ◌<◌, ◌≡◌, ◌++◌, true, List, [], ◌∷◌, Result, ok, err,
  ltb, leb, arith, length, All, if◌then◌else◌, map, refl, ◌==◌, ◌&&◌, all, not, ◌↔◌, length-append,
}
use embodied_hand_lab.Prelude.Int.{ℤ, pos, negsuc, sub_ℕ, pos_part, neg_part, lebℤ, ◌≤ℤ◌}

pub data Error : Type 0 where
  insufficient_payload bad_length out_of_range : Error

-- `value & 0xFF`
unfoldable pub low_byte : ℤ → ℕ
low_byte (pos n) = n % 256
low_byte (negsuc n) = 255 - n % 256

-- `(value >> 8) & 0xFF`
unfoldable pub high_byte : ℤ → ℕ
high_byte (pos n) = (n / 256) % 256
high_byte (negsuc n) = 255 - (n / 256) % 256

-- `_u16_list_to_bytes`
unfoldable pub u16_list_to_bytes : List ℤ → List ℕ
unfolding low_byte high_byte
u16_list_to_bytes [] = []
u16_list_to_bytes (value ∷ values) = low_byte value ∷ high_byte value ∷ u16_list_to_bytes values

-- The loop of `_u16_list_from_bytes`, `count` rounds that each read the next two bytes.
unfoldable pub read_words : ℕ → List ℕ → List ℕ
read_words zero bytes = []
read_words (suc count) [] = []
read_words (suc count) (lo ∷ []) = []
read_words (suc count) (lo ∷ hi ∷ bytes) = (lo % 256 + (hi % 256) * 256) ∷ read_words count bytes

-- `_u16_list_from_bytes`
unfoldable pub u16_list_from_bytes : List ℕ → ℕ → Result Error (List ℕ)
unfolding read_words
u16_list_from_bytes bytes count =
    if ltb (length bytes) (2 * count) then err insufficient_payload else ok (read_words count bytes)

-- The sign of one word in `_s16_list_from_bytes`.
unfoldable pub signed : ℕ → ℤ
signed value = if leb 32768 value then sub_ℕ value 65536 else pos value

-- `_s16_list_from_bytes`
unfoldable pub s16_list_from_bytes : List ℕ → ℕ → Result Error (List ℤ)
unfolding signed
s16_list_from_bytes bytes count = elim (u16_list_from_bytes bytes count) [
  | ok values ↦ ok (map signed values)
  | err e ↦ err e
]

-- `_validate_vector`
unfoldable pub validate_vector : List ℤ → ℤ → ℤ → Result Error (Unit {0})
validate_vector values low high =
    if not (length values == 6)
    then err bad_length
    else if all (λ v. lebℤ low v && lebℤ v high) values
    then ok tt
    else err out_of_range

pub length-u16_list_to_bytes : (vs : List ℤ) → length (u16_list_to_bytes vs) ≡ 2 * length vs
unfolding u16_list_to_bytes
length-u16_list_to_bytes [] = refl
length-u16_list_to_bytes (v ∷ vs) = omega (arith, length-u16_list_to_bytes vs)

-- The word that stands for an integer: the integer modulo 2 ^ 16.
abbrev pub as_word : ℤ → ℕ
as_word (pos n) = n % 65536
as_word (negsuc n) = 65535 - n % 65536

word_halves : (v : ℤ) → low_byte v % 256 + (high_byte v % 256) * 256 ≡ as_word v
unfolding low_byte high_byte
word_halves (pos n) = omega arith
word_halves (negsuc n) = omega arith

read_words-bytes :
    (vs : List ℤ) (rest : List ℕ)
    → read_words (length vs) (u16_list_to_bytes vs ++ rest) ≡ map as_word vs
unfolding read_words u16_list_to_bytes
read_words-bytes [] rest = refl
read_words-bytes (v ∷ vs) rest = rw (word_halves v, read_words-bytes vs rest)

-- Any integers written as bytes are read back as words modulo 2 ^ 16, and what follows the bytes does
-- not matter.
pub u16_round_trip :
    (vs : List ℤ) (rest : List ℕ)
    → u16_list_from_bytes (u16_list_to_bytes vs ++ rest) (length vs) ≡ ok (map as_word vs)
unfolding u16_list_from_bytes
u16_round_trip vs rest = ground (
  arith,
  length-u16_list_to_bytes vs,
  read_words-bytes vs rest,
  length-append (u16_list_to_bytes vs) rest,
)

abbrev pub IsWord : ℤ → Type 0
IsWord v = (pos_part v < 65536) × (neg_part v ≡ 0)

-- A word that is written is read back unchanged.
pub map-as_word : (vs : List ℤ) → All IsWord vs → map (λ n. pos n) (map as_word vs) ≡ vs
map-as_word [] h = refl
map-as_word (pos n ∷ vs) h = ground (arith, map-as_word vs h.1)
map-as_word (negsuc n ∷ vs) h = absurd (omega (arith, h.0))

abbrev pub IsSigned : ℤ → Type 0
IsSigned v = (pos_part v < 32768) × (neg_part v ≤ 32768)

signed-as_word : (v : ℤ) → IsSigned v → signed (as_word v) ≡ v
unfolding signed
signed-as_word (pos n) h = ground arith
signed-as_word (negsuc n) h = ground arith

map-signed-as_word : (vs : List ℤ) → All IsSigned vs → map signed (map as_word vs) ≡ vs
map-signed-as_word [] h = refl
map-signed-as_word (v ∷ vs) h = rw (signed-as_word v h.0, map-signed-as_word vs h.1)

-- Integers from -32768 to 32767 that are written as bytes are read back unchanged as signed words,
-- whatever follows the bytes.
pub s16_round_trip :
    (vs : List ℤ) (rest : List ℕ)
    → All IsSigned vs
    → s16_list_from_bytes (u16_list_to_bytes vs ++ rest) (length vs) ≡ ok vs
unfolding s16_list_from_bytes
s16_round_trip vs rest h =
    let back = u16_round_trip vs rest in ground (arith, back, map-signed-as_word vs h)

-- Every value lies in the range.
abbrev pub InRange : ℤ → ℤ → ℤ → Type 0
InRange low high v = (low ≤ℤ v) × (v ≤ℤ high)

all-InRange :
    (low high : ℤ) (vs : List ℤ)
    → (all (λ v. lebℤ low v && lebℤ v high) vs ≡ true) ↔ All (InRange low high) vs
all-InRange low high [] = (λ h. tt, λ h. refl)
all-InRange low high (v ∷ vs) =
    let (to, from) = all-InRange low high vs in
    (λ h. (ground arith, to (ground arith)), λ h. ground (arith, from h.1))

-- A command vector is accepted exactly if it has six values and each lies in the range.
pub validate_vector_iff :
    (vs : List ℤ) (low high : ℤ)
    → (validate_vector vs low high ≡ ok tt) ↔ ((length vs ≡ 6) × All (InRange low high) vs)
unfolding validate_vector
validate_vector_iff vs low high =
    let (to, from) = all-InRange low high vs in
    (λ h. (ground arith, to (ground arith)), λ h. ground (arith, from h.1))
