-- ===== src/Wire/Packets/RoundTrip.antt =====
-- `decode_target` of src/teleoperation/wire.py accepts exactly what `encode_target` returns.
use embodied_hand_lab.Prelude.{
  ℕ, ◌-◌, ◌%◌, ◌^◌, ◌<◌, ◌≡◌, ◌↔◌, ◌∙◌, ap, sym, refl, List, [], ◌∷◌, ◌++◌, map, Result, ok, err,
  arith, length, take, drop, All, take-append, take-append-drop, length-append, length-take,
  length-drop, get_or,
}
use embodied_hand_lab.Prelude.Int.{pos}
use embodied_hand_lab.Wire.Layout
use embodied_hand_lab.Wire.Layout.{bytes_of, number_of, pack, size, unpack}
use embodied_hand_lab.Wire.Layout.Codec.{
  IsByte, Fits, pack-Packed, pack-unpack, unpack_append, unpack_one, unpack-pack, take-All,
  drop-All, append_nil, length-unpack, bytes_of-number_of, bytes_of-All, length-bytes_of,
  append-All,
}
use embodied_hand_lab.Wire.Packets.{
  TargetPacket, kind_of, frame_of, target_values, target_without_crc, target_struct, with_crc,
  encode_target, decode_values, decode_target,
}
use embodied_hand_lab.Wire.Packets.Values.{
  kind_code-kind_of, frame_code-frame_of, get_or_last, decode_lem, spelled, spelled-unpack,
  values_lem, decode_parts, packet_of_parts,
}

with_crc_parts :
    (crc32 : List ℕ → ℕ) (r : Result Layout.Error (List ℕ)) (bytes : List ℕ)
    → with_crc crc32 r ≡ ok bytes
    → (body : List ℕ) × (r ≡ ok body) × (bytes ≡ body ++ bytes_of 4 (crc32 body % 2 ^ 32))
with_crc_parts crc32 (ok body) bytes h = (body, refl, ground arith)
with_crc_parts crc32 (err e) bytes h = absurd cc

-- The last field of a datagram is its checksum.
unpack_crc :
    (body : List ℕ) (n : ℕ)
    → length body ≡ size target_without_crc
    → n < 2 ^ 32
    → unpack target_struct (body ++ bytes_of 4 n) ≡ unpack target_without_crc body ++ n ∷ []
unpack_crc body n l h =
    unpack_append target_without_crc (4 ∷ []) body (bytes_of 4 n) l
    ∙ ap (λ t. unpack target_without_crc body ++ t) (unpack_one 4 n h)

decode_sized :
    (crc32 : List ℕ → ℕ) (bytes : List ℕ)
    → length bytes ≡ 124
    → decode_target crc32 bytes ≡ decode_values crc32 (unpack target_struct bytes) bytes
unfolding decode_target
decode_sized crc32 bytes h = ground arith

decode-encode :
    (crc32 : List ℕ → ℕ) (p : TargetPacket) (bytes : List ℕ)
    → encode_target crc32 p ≡ ok bytes
    → decode_target crc32 bytes ≡ ok p
unfolding encode_target
decode-encode crc32 p bytes h =
    let (body, e, q) = with_crc_parts crc32 (pack target_without_crc (target_values p)) bytes h in
    let (k, l, _) = unpack-pack target_without_crc (target_values p) body e in
    let n = crc32 body % 2 ^ 32 in
    let u = unpack target_without_crc body in
    let c = bytes_of 4 n in
    let whole : length (body ++ c) ≡ 124 =
      omega (arith, length-append body c, length-bytes_of 4 n, l) in
    let cut : take (length (body ++ c) - 4) (body ++ c) ≡ body =
      ap (λ i. take i (body ++ c)) (omega (arith, whole, l)) ∙ take-append body c in
    rw q (
      decode_sized crc32 (body ++ c) whole
      ∙ ap (λ t. decode_values crc32 t (body ++ c)) (unpack_crc body n l (omega arith))
      ∙ decode_lem crc32 u (body ++ c) n p k (length-unpack target_without_crc body)
          (ap (λ t. crc32 t % 2 ^ 32) cut))

decode_size :
    (crc32 : List ℕ → ℕ) (p : TargetPacket) (bytes : List ℕ)
    → decode_target crc32 bytes ≡ ok p
    → (length bytes ≡ 124) × (decode_values crc32 (unpack target_struct bytes) bytes ≡ ok p)
unfolding decode_target
decode_size crc32 p bytes h = ground arith

unpack_last : (c : List ℕ) → length c ≡ 4 → unpack (4 ∷ []) c ≡ number_of c ∷ []
unfolding unpack
unpack_last c l =
    ap (λ bs. number_of bs ∷ [])
      (ap (λ i. take i c) (sym l)
        ∙ ap (λ t. take (length c) t) (sym (append_nil c))
        ∙ take-append c [])

unpack_split :
    (bytes : List ℕ)
    → length bytes ≡ 124
    → unpack target_struct bytes
      ≡ unpack target_without_crc (take 120 bytes) ++ number_of (drop 120 bytes) ∷ []
unpack_split bytes l =
    ap (λ t. unpack target_struct t) (sym (take-append-drop 120 bytes))
    ∙ unpack_append target_without_crc (4 ∷ []) (take 120 bytes) (drop 120 bytes)
        (omega (arith, l, length-take 120 bytes))
    ∙ ap (λ t. unpack target_without_crc (take 120 bytes) ++ t)
        (unpack_last (drop 120 bytes) (omega (arith, l, length-drop 120 bytes)))

encode-decode :
    (crc32 : List ℕ → ℕ) (p : TargetPacket) (bytes : List ℕ)
    → All IsByte bytes
    → decode_target crc32 bytes ≡ ok p
    → encode_target crc32 p ≡ ok bytes
unfolding encode_target
encode-decode crc32 p bytes are h =
    let (whole, d) = decode_size crc32 p bytes h in
    let body = take 120 bytes in
    let c = drop 120 bytes in
    let u = unpack target_without_crc body in
    let l : length body ≡ 120 = omega (arith, whole, length-take 120 bytes) in
    let l4 : length c ≡ 4 = omega (arith, whole, length-drop 120 bytes) in
    let values = unpack target_struct bytes in
    let split : values ≡ u ++ number_of c ∷ [] = unpack_split bytes whole in
    let (m0, m1, m18, made_p) = decode_parts crc32 values bytes p d in
    let (kind, frame, k, f, q) =
      packet_of_parts (kind_of (get_or values 2 0)) (frame_of (get_or values 4 0))
        (pos (get_or values 3 0)) values (take 8 (drop 10 values)) p made_p in
    let v =
      values_lem values kind frame p m0 m1 (kind_code-kind_of (get_or values 2 0) kind k)
        (frame_code-frame_of (get_or values 4 0) frame f) q in
    let same : target_values p ≡ map (λ n. pos n) u =
      v ∙ ap spelled split ∙ spelled-unpack body (number_of c) in
    let packed = pack-unpack target_without_crc body l (take-All 120 bytes are) in
    let short : length bytes - 4 ≡ 120 = omega (arith, whole) in
    let cut : take (length bytes - 4) bytes ≡ body = ap (λ i. take i bytes) short in
    let sum : crc32 body % 2 ^ 32 ≡ number_of c =
      ap (λ t. crc32 t % 2 ^ 32) (sym cut)
      ∙ m18
      ∙ ap (λ t. get_or t 18 0) split
      ∙ get_or_last u (number_of c) 18 (length-unpack target_without_crc body) in
    let tail : bytes_of 4 (crc32 body % 2 ^ 32) ≡ c =
      ap (λ n. bytes_of 4 n) sum
      ∙ ap (λ i. bytes_of i (number_of c)) (sym l4)
      ∙ bytes_of-number_of c (drop-All 120 bytes are) in
    rw same (rw packed (ap (λ t. ok t) (ap (λ t. body ++ t) tail ∙ take-append-drop 120 bytes)))

-- For every checksum function, bytes decode to a packet exactly if the packet encodes to them: an
-- encoded packet is returned unchanged, and no other datagram is accepted.
pub decode_target_iff :
    (crc32 : List ℕ → ℕ) (p : TargetPacket) (bytes : List ℕ)
    → All IsByte bytes
    → (decode_target crc32 bytes ≡ ok p) ↔ (encode_target crc32 p ≡ ok bytes)
decode_target_iff crc32 p bytes are = (encode-decode crc32 p bytes are, decode-encode crc32 p bytes)

-- What `encode_target` returns is bytes.
pub encode_target-bytes :
    (crc32 : List ℕ → ℕ) (p : TargetPacket)
    → Fits target_without_crc (target_values p)
    → (bytes : List ℕ) × (encode_target crc32 p ≡ ok bytes)
      × (length bytes ≡ 124)
      × All IsByte bytes
unfolding encode_target
encode_target-bytes crc32 p h =
    let (body, r) = pack-Packed target_without_crc (target_values p) h in
    let n = crc32 body % 2 ^ 32 in
    (
      body ++ bytes_of 4 n,
      rw r.packs refl,
      omega (arith, length-append body (bytes_of 4 n), length-bytes_of 4 n, r.length_of),
      append-All body (bytes_of 4 n) r.are_bytes (bytes_of-All 4 n),
    )
