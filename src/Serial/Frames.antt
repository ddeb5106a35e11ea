-- ===== src/Serial/Frames.antt =====
-- The frames of src/rh56_driver/serial_backend.py.
pub mod Splitting
pub mod Chunks
use embodied_hand_lab.Prelude.{
  ℕ, zero, suc, ◌+◌, ◌%◌, ◌-◌, ◌++◌, Bool, true, false, List, [], ◌∷◌, Result, ok, err, ltb, leb,
  length, if◌then◌else◌, ◌==◌, ◌&&◌, all, not, take, drop, get_or, Option, none, some,
}

pub data Error : Type 0 where
  byte_out_of_range : Error

-- `sum(payload)`
abbrev pub sum : List ℕ → ℕ
sum [] = 0
sum (x ∷ xs) = x + sum xs

-- `_build_frame`; `bytes(...)` raises a ValueError on a number above 255.
unfoldable pub build_frame : List ℕ → Result Error (List ℕ)
build_frame payload =
    if all (λ b. ltb b 256) payload
    then ok (0xEB ∷ 0x90 ∷ payload ++ sum payload % 256 ∷ [])
    else err byte_out_of_range

-- `buffer[i] == 0x90 and buffer[i + 1] == 0xEB`, where `rest` is `buffer[i:]`
abbrev pub has_header : List ℕ → Bool
has_header rest = get_or rest 0 0 == 0x90 && get_or rest 1 0 == 0xEB

-- `data_len + 5`
abbrev pub total_len : List ℕ → ℕ
total_len rest = get_or rest 3 0 + 5

-- The loop of `_split_frames`, on the part of the buffer from `i` on. Each round moves on by one
-- byte at least, so the length of the buffer is fuel enough (`Splitting.split_fuel`).
unfoldable pub split : ℕ → List ℕ → List (List ℕ)
split zero rest = []
split (suc fuel) rest =
    let skipped = split fuel (drop 1 rest) in
    let later = take (total_len rest) rest ∷ split fuel (drop (total_len rest) rest) in
    if ltb (length rest) 5
    then []
    else if not (has_header rest)
    then skipped
    else if ltb (length rest) (total_len rest)
    then []
    else later

-- `_split_frames`
unfoldable pub split_frames : List ℕ → List (List ℕ)
split_frames buffer = split (length buffer) buffer

-- `frame[2:-1]`
abbrev pub body : List ℕ → List ℕ
body frame = take (length frame - 3) (drop 2 frame)

-- `_validate_checksum`
unfoldable pub validate_checksum : List ℕ → Bool
validate_checksum frame =
    leb 6 (length frame) && sum (body frame) % 256 == get_or frame (length frame - 1) 0
