-- ===== src/Serial/Registers/Reads.antt =====
-- What `read_register` of src/rh56_driver/serial_backend.py accepts.
use embodied_hand_lab.Prelude.{
  ℕ, zero, suc, ◌+◌, ◌%◌, ◌/◌, ◌-◌, ◌≤◌, ◌≡◌, ◌++◌, true, List, [], ◌∷◌, ok, length, take, get_or,
  arith, ◌↔◌, refl, length-append, take-append, ap, ◌∙◌, length-take, sym, length-take,
}
use embodied_hand_lab.Serial.Frames.{sum, validate_checksum, body}
use embodied_hand_lab.Serial.Registers.{check_read}

-- The reply of the device to a read: the header, its id, the length, the command, the address, the
-- data and the checksum of all but the header.
abbrev read_checksum : ℕ → ℕ → List ℕ → ℕ
read_checksum hand_id address bytes =
    sum (hand_id ∷ (length bytes + 3) ∷ 0x11 ∷ address % 256 ∷ (address / 256) % 256 ∷ bytes) % 256

abbrev pub read_reply : ℕ → ℕ → List ℕ → List ℕ
read_reply hand_id address bytes =
    let middle =
      hand_id ∷ (length bytes + 3) ∷ 0x11 ∷ address % 256 ∷ (address / 256) % 256 ∷ bytes in
    0x90 ∷ 0xEB ∷ (middle ++ sum middle % 256 ∷ [])

get_or-last : (xs : List ℕ) (x : ℕ) → get_or (xs ++ x ∷ []) (length xs) 0 ≡ x
get_or-last [] x = refl
get_or-last (y ∷ xs) x = get_or-last xs x

-- A list of one element more than `n` is its first `n` elements and its last.
pub split_last : (n : ℕ) (xs : List ℕ) → length xs ≡ suc n → take n xs ++ get_or xs n 0 ∷ [] ≡ xs
split_last zero [] h = absurd (omega arith)
split_last zero (x ∷ []) h = refl
split_last zero (x ∷ y ∷ xs) h = absurd (omega arith)
split_last (suc n) [] h = absurd (omega arith)
split_last (suc n) (x ∷ xs) h = ap (λ t. x ∷ t) (split_last n xs (omega arith))

module _ (f0 f1 f2 f3 f4 f5 f6 : ℕ) where
  body_lem :
      (n : ℕ) (rest : List ℕ)
      → length rest ≡ suc n
      → body (f0 ∷ f1 ∷ f2 ∷ f3 ∷ f4 ∷ f5 ∷ f6 ∷ rest) ≡ f2 ∷ f3 ∷ f4 ∷ f5 ∷ f6 ∷ take n rest
  body_lem n rest h =
      ap (λ k. take k (f2 ∷ f3 ∷ f4 ∷ f5 ∷ f6 ∷ rest))
        (let e : suc (suc (suc (suc (suc (suc (suc (length rest))))))) - 3
              ≡ suc (suc (suc (suc (suc n)))) =
            omega arith in
          e)

  pub checksum_lem :
      (n : ℕ) (rest : List ℕ)
      → length rest ≡ suc n
      → (validate_checksum (f0 ∷ f1 ∷ f2 ∷ f3 ∷ f4 ∷ f5 ∷ f6 ∷ rest) ≡ true)
        ↔ (sum (f2 ∷ f3 ∷ f4 ∷ f5 ∷ f6 ∷ take n rest) % 256 ≡ get_or rest n 0)
  unfolding validate_checksum
  checksum_lem n rest h =
      let frame : List ℕ = f0 ∷ f1 ∷ f2 ∷ f3 ∷ f4 ∷ f5 ∷ f6 ∷ rest in
      let b = body_lem n rest h in
      let last : get_or frame (length frame - 1) 0 ≡ get_or rest n 0 =
        ap (λ k. get_or frame k 0)
          (let e : length frame - 1 ≡ suc (suc (suc (suc (suc (suc (suc n)))))) = omega arith in
            e) in
      (λ e. ap (λ t. sum t % 256) (sym b) ∙ ground (arith, last), λ e. rw (b, last) (ground arith))

pub check_read-reply :
    (hand_id address : ℕ) (bytes : List ℕ)
    → check_read hand_id address (length bytes) (read_reply hand_id address bytes) ≡ ok bytes
unfolding check_read
check_read-reply hand_id address bytes =
    let c = read_checksum hand_id address bytes in
    let rest = bytes ++ c ∷ [] in
    let long : length rest ≡ suc (length bytes) = omega (arith, length-append bytes (c ∷ [])) in
    let data_part = take-append bytes (c ∷ []) in
    let sums : sum (
            hand_id
            ∷ (length bytes + 3)
            ∷ 0x11
            ∷ address % 256
            ∷ (address / 256) % 256
            ∷ take (length bytes) rest)
          % 256
        ≡ get_or rest (length bytes) 0 =
      rw (data_part, get_or-last bytes c) refl in
    ground (
      arith,
      data_part,
      long,
      (checksum_lem 0x90 0xEB hand_id (length bytes + 3) 0x11 (address % 256)
            ((address / 256) % 256) (length bytes) rest long).1
          sums,
    )

check_read_inv :
    (hand_id address len f0 f1 f2 f3 f4 f5 f6 : ℕ) (rest bytes : List ℕ)
    → let frame = f0 ∷ f1 ∷ f2 ∷ f3 ∷ f4 ∷ f5 ∷ f6 ∷ rest in
      check_read hand_id address len frame ≡ ok bytes
      → (validate_checksum frame ≡ true)
        × (f0 ≡ 0x90)
        × (f1 ≡ 0xEB)
        × (f2 ≡ hand_id)
        × (f3 ≡ len + 3)
        × (f4 ≡ 0x11)
        × (f5 ≡ address % 256)
        × (f6 ≡ (address / 256) % 256)
        × (length rest ≡ suc len)
        × (take len rest ≡ bytes)
unfolding check_read
check_read_inv hand_id address len f0 f1 f2 f3 f4 f5 f6 rest bytes h = ground arith

check_read_long :
    (hand_id address len : ℕ) (frame bytes : List ℕ)
    → check_read hand_id address len frame ≡ ok bytes
    → 8 ≤ length frame
unfolding check_read
check_read_long hand_id address len frame bytes h = ground arith

pub check_read_sound :
    (hand_id address len : ℕ) (frame bytes : List ℕ)
    → check_read hand_id address len frame ≡ ok bytes
    → (frame ≡ read_reply hand_id address bytes) × (length bytes ≡ len)
check_read_sound hand_id address len (f0 ∷ f1 ∷ f2 ∷ f3 ∷ f4 ∷ f5 ∷ f6 ∷ rest) bytes h =
    let (v, e0, e1, e2, e3, e4, e5, e6, l, t) =
      check_read_inv hand_id address len f0 f1 f2 f3 f4 f5 f6 rest bytes h in
    let size : length bytes ≡ len =
      omega (arith, ap (λ (xs : List ℕ). length xs) t, length-take len rest) in
    let s = (checksum_lem f0 f1 f2 f3 f4 f5 f6 len rest l).0 v in
    let r = split_last len rest l in (cc, size)
check_read_sound hand_id address len _ bytes h =
    absurd (omega (arith, check_read_long hand_id address len _ bytes h))
