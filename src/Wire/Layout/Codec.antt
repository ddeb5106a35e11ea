-- ===== src/Wire/Layout/Codec.antt =====
-- Unpacking returns what was packed, and packing returns the bytes that were unpacked.
use embodied_hand_lab.Prelude.{
  ℕ, zero, suc, ◌+◌, ◌*◌, ◌/◌, ◌%◌, ◌^◌, ◌≤◌, ◌<◌, ◌≡◌, ◌∙◌, ap, sym, refl, List, [], ◌∷◌, ◌++◌,
  map, Result, ok, err, arith, length, take, drop, All, take-append, drop-append, take-append-drop,
  length-append, take-append_le, drop-append_le, length-take, length-drop,
}
use mathlib.Core.Path.{subst}
use native.Mathlib.Numerals.{unary_clauses}
use embodied_hand_lab.Prelude.Int.{ℤ, pos, negsuc}
use embodied_hand_lab.Wire.Layout.{
  Error, bytes_of, number_of, pack_field, append_result, pack, size, unpack,
}

abbrev pub IsByte : ℕ → Type 0
IsByte b = b < 256

pub length-bytes_of : (w n : ℕ) → length (bytes_of w n) ≡ w
unfolding bytes_of
length-bytes_of zero n = refl
length-bytes_of (suc w) n = omega (arith, length-bytes_of w (n / 256))

pub bytes_of-All : (w n : ℕ) → All IsByte (bytes_of w n)
unfolding bytes_of
bytes_of-All zero n = tt
bytes_of-All (suc w) n = (omega arith, bytes_of-All w (n / 256))

power_suc : (w : ℕ) → 256 ^ suc w ≡ 256 * 256 ^ w
power_suc w = simp unary_clauses (omega arith)

pub number_of-bytes_of : (w n : ℕ) → n < 256 ^ w → number_of (bytes_of w n) ≡ n
unfolding bytes_of number_of
number_of-bytes_of zero n h = omega arith
number_of-bytes_of (suc w) n h =
    let k = power_suc w in let r = number_of-bytes_of w (n / 256) (omega arith) in omega arith

pub number_of-bound : (bs : List ℕ) → All IsByte bs → number_of bs < 256 ^ length bs
unfolding number_of
number_of-bound [] h = omega arith
number_of-bound (b ∷ bs) h =
    let k = power_suc (length bs) in let r = number_of-bound bs h.1 in omega (arith, h.0)

pub bytes_of-number_of : (bs : List ℕ) → All IsByte bs → bytes_of (length bs) (number_of bs) ≡ bs
unfolding bytes_of number_of
bytes_of-number_of [] h = refl
bytes_of-number_of (b ∷ bs) h =
    let r = bytes_of-number_of bs h.1 in
    let low : (b + 256 * number_of bs) % 256 ≡ b = omega (arith, h.0) in
    let high : (b + 256 * number_of bs) / 256 ≡ number_of bs = omega (arith, h.0) in
    rw low (rw high (ap (λ t. b ∷ t) r))

-- As many numbers as fields, each within its field.
abbrev pub Fits : List ℕ → List ℤ → Type 0
Fits [] [] = Unit
Fits (w ∷ ws) (pos n ∷ vs) = (n < 256 ^ w) × Fits ws vs
Fits _ _ = ⊥

-- What packing returns for numbers that fit.
pub record Packed (ws : List ℕ) (vs : List ℤ) (bytes : List ℕ) : Type 0 where
  pub packs : pack ws vs ≡ ok bytes
  pub length_of : length bytes ≡ size ws
  pub are_bytes : All IsByte bytes
  pub unpacks : (tail : List ℕ) → map (λ n. pos n) (unpack ws (bytes ++ tail)) ≡ vs

pub append-All : (xs ys : List ℕ) → All IsByte xs → All IsByte ys → All IsByte (xs ++ ys)
append-All [] ys h k = k
append-All (x ∷ xs) ys h k = (h.0, append-All xs ys h.1 k)

append_assoc : (xs ys zs : List ℕ) → (xs ++ ys) ++ zs ≡ xs ++ (ys ++ zs)
append_assoc [] ys zs = refl
append_assoc (x ∷ xs) ys zs = ap (λ t. x ∷ t) (append_assoc xs ys zs)

pack_field-fits : (w n : ℕ) → n < 256 ^ w → pack_field w (pos n) ≡ ok (bytes_of w n)
unfolding pack_field
pack_field-fits w n h = ground arith

unpack-cons :
    (w n : ℕ) (ws rest : List ℕ)
    → n < 256 ^ w
    → unpack (w ∷ ws) (bytes_of w n ++ rest) ≡ n ∷ unpack ws rest
unfolding unpack
unpack-cons w n ws rest h =
    let size_w = length-bytes_of w n in
    let taken : take w (bytes_of w n ++ rest) ≡ bytes_of w n =
      ap (λ k. take k (bytes_of w n ++ rest)) (sym size_w) ∙ take-append (bytes_of w n) rest in
    let dropped : drop w (bytes_of w n ++ rest) ≡ rest =
      ap (λ k. drop k (bytes_of w n ++ rest)) (sym size_w) ∙ drop-append (bytes_of w n) rest in
    rw taken (rw dropped (ap (λ t. t ∷ unpack ws rest) (number_of-bytes_of w n h)))

pub pack-Packed : (ws : List ℕ) (vs : List ℤ) → Fits ws vs → (bytes : List ℕ) × Packed ws vs bytes
unfolding pack unpack
pack-Packed [] [] h =
    ([], record { packs = refl; length_of = refl; are_bytes = tt; unpacks = λ tail. refl })
pack-Packed [] (v ∷ vs) h = absurd h
pack-Packed (w ∷ ws) [] h = absurd h
pack-Packed (w ∷ ws) (negsuc n ∷ vs) h = absurd h
pack-Packed (w ∷ ws) (pos n ∷ vs) h =
    let (rest, r) = pack-Packed ws vs h.1 in
    let field = bytes_of w n in
    (
      field ++ rest,
      record {
        packs = rw (pack_field-fits w n h.0) (rw r.packs refl);
        length_of = omega (arith, length-append field rest, length-bytes_of w n, r.length_of);
        are_bytes = append-All field rest (bytes_of-All w n) r.are_bytes;
        unpacks = λ tail.
            ap (λ bs. map (λ n. pos n) (unpack (w ∷ ws) bs)) (append_assoc field rest tail)
            ∙ ap (λ ns. map (λ n. pos n) ns) (unpack-cons w n ws (rest ++ tail) h.0)
            ∙ ap (λ t. pos n ∷ t) (r.unpacks tail);
      },
    )

append_parts :
    (a b : Result Error (List ℕ)) (bytes : List ℕ)
    → append_result a b ≡ ok bytes
    → ((xs : List ℕ) × (a ≡ ok xs)) × ((ys : List ℕ) × (b ≡ ok ys))
append_parts (ok xs) (ok ys) bytes h = ((xs, refl), (ys, refl))
append_parts (ok xs) (err e) bytes h = absurd cc
append_parts (err e) b bytes h = absurd cc

fits_field : (w n : ℕ) (xs : List ℕ) → pack_field w (pos n) ≡ ok xs → n < 256 ^ w
unfolding pack_field
fits_field w n xs h = ground arith

-- Packing succeeds only for numbers that fit.
pub pack-Fits : (ws : List ℕ) (vs : List ℤ) (bytes : List ℕ) → pack ws vs ≡ ok bytes → Fits ws vs
unfolding pack pack_field
pack-Fits [] [] bytes h = tt
pack-Fits [] (v ∷ vs) bytes h = absurd cc
pack-Fits (w ∷ ws) [] bytes h = absurd cc
pack-Fits (w ∷ ws) (negsuc n ∷ vs) bytes h = absurd cc
pack-Fits (w ∷ ws) (pos n ∷ vs) bytes h =
    let ((xs, e), (ys, k)) = append_parts (pack_field w (pos n)) (pack ws vs) bytes h in
    (fits_field w n xs e, pack-Fits ws vs ys k)

pub take-All : (n : ℕ) (xs : List ℕ) → All IsByte xs → All IsByte (take n xs)
take-All zero xs h = tt
take-All (suc n) [] h = tt
take-All (suc n) (x ∷ xs) h = (h.0, take-All n xs h.1)

pub drop-All : (n : ℕ) (xs : List ℕ) → All IsByte xs → All IsByte (drop n xs)
drop-All zero xs h = h
drop-All (suc n) [] h = tt
drop-All (suc n) (x ∷ xs) h = drop-All n xs h.1

-- Bytes of the right number are what packs the numbers that they unpack to.
pub pack-unpack :
    (ws bytes : List ℕ)
    → length bytes ≡ size ws
    → All IsByte bytes
    → pack ws (map (λ n. pos n) (unpack ws bytes)) ≡ ok bytes
unfolding pack unpack
pack-unpack [] [] l h = refl
pack-unpack [] (b ∷ bs) l h = absurd (omega (arith, l))
pack-unpack (w ∷ ws) bytes l h =
    let field = take w bytes in
    let rest = drop w bytes in
    let size_w : length field ≡ w = omega (arith, l, length-take w bytes) in
    let n = number_of field in
    let bound : n < 256 ^ w =
      subst (λ k. n < 256 ^ k) size_w (number_of-bound field (take-All w bytes h)) in
    let back : bytes_of w n ≡ field =
      subst (λ k. bytes_of k n ≡ field) size_w (bytes_of-number_of field (take-All w bytes h)) in
    let r = pack-unpack ws rest (omega (arith, l, length-drop w bytes)) (drop-All w bytes h) in
    rw (pack_field-fits w n bound)
      (rw r (ap (λ t. ok t) (ap (λ t. t ++ rest) back ∙ take-append-drop w bytes)))

pub length-unpack : (ws bytes : List ℕ) → length (unpack ws bytes) ≡ length ws
unfolding unpack
length-unpack [] bytes = refl
length-unpack (w ∷ ws) bytes = omega (arith, length-unpack ws (drop w bytes))

-- The fields of two layouts, one behind the other.
pub unpack_append :
    (ws ws' bs cs : List ℕ)
    → length bs ≡ size ws
    → unpack (ws ++ ws') (bs ++ cs) ≡ unpack ws bs ++ unpack ws' cs
unfolding unpack
unpack_append [] ws' [] cs l = refl
unpack_append [] ws' (b ∷ bs) cs l = absurd (omega (arith, l))
unpack_append (w ∷ ws) ws' bs cs l =
    let within : w ≤ length bs = omega (arith, l) in
    let rest : length (drop w bs) ≡ size ws = omega (arith, l, length-drop w bs) in
    rw (take-append_le w bs cs within) (
      rw (drop-append_le w bs cs within)
        (ap (λ t. number_of (take w bs) ∷ t) (unpack_append ws ws' (drop w bs) cs rest)))

pub append_nil : (xs : List ℕ) → xs ++ [] ≡ xs
append_nil [] = refl
append_nil (x ∷ xs) = ap (λ t. x ∷ t) (append_nil xs)

pub unpack_one : (w n : ℕ) → n < 256 ^ w → unpack (w ∷ []) (bytes_of w n) ≡ n ∷ []
unfolding unpack
unpack_one w n h =
    ap (λ bs. unpack (w ∷ []) bs) (sym (append_nil (bytes_of w n))) ∙ unpack-cons w n [] [] h

bytes_in : Result Error (List ℕ) → List ℕ
bytes_in (ok xs) = xs
bytes_in (err e) = []

ok_injective : (xs ys : List ℕ) → ◌≡◌ {A = Result Error (List ℕ)} (ok xs) (ok ys) → xs ≡ ys
unfolding bytes_in
ok_injective xs ys h = ap bytes_in h

-- What packing returned unpacks to the numbers.
pub unpack-pack :
    (ws : List ℕ) (vs : List ℤ) (bytes : List ℕ)
    → pack ws vs ≡ ok bytes
    → (map (λ n. pos n) (unpack ws bytes) ≡ vs) × (length bytes ≡ size ws) × All IsByte bytes
unpack-pack ws vs bytes h =
    let (found, r) = pack-Packed ws vs (pack-Fits ws vs bytes h) in
    let same : found ≡ bytes = ok_injective found bytes (sym r.packs ∙ h) in
    (
      ap (λ bs. map (λ n. pos n) (unpack ws bs)) (sym same ∙ sym (append_nil found)) ∙ r.unpacks [],
      ap (λ (bs : List ℕ). length bs) (sym same) ∙ r.length_of,
      subst (λ bs. All IsByte bs) same r.are_bytes,
    )
