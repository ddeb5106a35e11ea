-- ===== src/Wire/Status/Latest.antt =====
-- Which status `WorkerStatusReceiver.latest` of src/teleoperation/wire.py returns.
use mathlib.Core.Path.{subst}
use embodied_hand_lab.Prelude.{
  ℕ, zero, suc, ◌-◌, ◌%◌, ◌^◌, ◌≤◌, ◌≡◌, ◌⊎◌, ◌∙◌, ap, refl, List, [], ◌∷◌, ◌++◌, Result, ok, err,
  arith, length, take, Option, none, some, get_or, All, inl, inr, length-take,
}
use embodied_hand_lab.Wire.Layout.{unpack}
use embodied_hand_lab.Wire.Packets.{wire_version}
use embodied_hand_lab.Wire.Status.{
  WorkerStatusPacket, Error, status_struct, status_magic, status_of, decode_status, drain, latest,
}

module _ (crc32 : List ℕ → ℕ) where
  -- A datagram that is a whole status packet.
  pub record IsStatus (bytes : List ℕ) : Type 0 where
    pub size_of : length bytes ≡ 108
    pub magic : get_or (unpack status_struct bytes) 0 0 ≡ status_magic
    pub version : get_or (unpack status_struct bytes) 1 0 ≡ wire_version
    pub checksum :
        crc32 (take (length bytes - 4) bytes) % 2 ^ 32 ≡ get_or (unpack status_struct bytes) 16 0

  Result-cases :
      (r : Result Error WorkerStatusPacket)
      → ((p : WorkerStatusPacket) × (r ≡ ok p)) ⊎ ((e : Error) × (r ≡ err e))
  Result-cases (ok p) = inl (p, refl)
  Result-cases (err e) = inr (e, refl)

  decode_status_inv :
      (bytes : List ℕ) (p : WorkerStatusPacket)
      → decode_status crc32 bytes ≡ ok p
      → IsStatus bytes × (p ≡ status_of (unpack status_struct bytes))
  unfolding decode_status
  decode_status_inv bytes p h = ground arith

  decode_status-IsStatus :
      (bytes : List ℕ)
      → IsStatus bytes
      → decode_status crc32 bytes ≡ ok (status_of (unpack status_struct bytes))
  unfolding decode_status
  decode_status-IsStatus bytes h = ground arith

  take-nil : (n : ℕ) → take {A = ℕ} n [] ≡ []
  take-nil zero = refl
  take-nil (suc n) = refl

  take_all : (n : ℕ) (xs : List ℕ) → length xs ≤ n → take n xs ≡ xs
  take_all n [] h = take-nil n
  take_all zero (x ∷ xs) h = absurd (omega (arith, h))
  take_all (suc n) (x ∷ xs) h = ap (λ t. x ∷ t) (take_all n xs (omega (arith, h)))

  -- What `recv` leaves of a datagram decodes only if the datagram is a status.
  cut_decodes :
      (bytes : List ℕ) (p : WorkerStatusPacket)
      → decode_status crc32 (take 109 bytes) ≡ ok p
      → IsStatus bytes × (p ≡ status_of (unpack status_struct bytes))
  cut_decodes bytes p h =
      let (status, q) = decode_status_inv (take 109 bytes) p h in
      let size_cut = status.size_of in
      let whole : take 109 bytes ≡ bytes =
        take_all 109 bytes (omega (arith, size_cut, length-take 109 bytes)) in
      (subst (λ t. IsStatus t) whole status, q ∙ ap (λ t. status_of (unpack status_struct t)) whole)

  cut_refused :
      (bytes : List ℕ) (e : Error)
      → decode_status crc32 (take 109 bytes) ≡ err e
      → IsStatus bytes
      → ⊥
  cut_refused bytes e h status =
      let size_b = status.size_of in
      let whole : take 109 bytes ≡ bytes = take_all 109 bytes (omega (arith, size_b)) in
      let d = ap (λ t. decode_status crc32 t) whole ∙ decode_status-IsStatus bytes status in cc

  -- The last status among the datagrams, and none behind it.
  abbrev pub Last : List (List ℕ) → WorkerStatusPacket → Type 0
  Last waiting p =
      (before : List (List ℕ)) × (bytes : List ℕ) × (after : List (List ℕ)) × (waiting
        ≡ before ++ bytes ∷ after)
      × IsStatus bytes
      × (p ≡ status_of (unpack status_struct bytes))
      × All (λ d. IsStatus d → ⊥) after

  Last-cons :
      (bytes : List ℕ) (rest : List (List ℕ)) (p : WorkerStatusPacket)
      → Last rest p
      → Last (bytes ∷ rest) p
  Last-cons bytes rest p (before, b, after, split, status, q, none_left) =
      (bytes ∷ before, b, after, ap (λ t. bytes ∷ t) split, status, q, none_left)

  drain_lem :
      (result : Option WorkerStatusPacket) (waiting : List (List ℕ))
      → ((p : WorkerStatusPacket) × (drain crc32 result waiting ≡ some p) × Last waiting p)
        ⊎ ((drain crc32 result waiting ≡ result) × All (λ d. IsStatus d → ⊥) waiting)
  unfolding drain
  drain_lem result [] = inr (refl, tt)
  drain_lem result (bytes ∷ rest) = elim (Result-cases (decode_status crc32 (take 109 bytes))) [
    | inl (p, h) ↦
        let (status, q) = cut_decodes bytes p h in
        elim (drain_lem (some p) rest) [
          | inl (r, e, last) ↦ inl (r, rw (drain, h) e, Last-cons bytes rest r last)
          | inr (e, none_left) ↦
              inl (p, rw (drain, h) e, ([], bytes, rest, refl, status, q, none_left))
        ]
    | inr (x, h) ↦ elim (drain_lem result rest) [
      | inl (r, e, last) ↦ inl (r, rw (drain, h) e, Last-cons bytes rest r last)
      | inr (e, none_left) ↦ inr (rw (drain, h) e, (cut_refused bytes x h, none_left))
    ]
  ]

  -- Of the datagrams that wait, `latest` returns the last one that is a status packet of the right
  -- size, magic number, version and checksum, whatever stands before and behind it. It returns None
  -- exactly if there is none.
  pub latest_lem :
      (waiting : List (List ℕ))
      → ((p : WorkerStatusPacket) × (latest crc32 waiting ≡ some p) × Last waiting p)
        ⊎ ((latest crc32 waiting ≡ none) × All (λ d. IsStatus d → ⊥) waiting)
  unfolding latest
  latest_lem waiting = drain_lem none waiting
