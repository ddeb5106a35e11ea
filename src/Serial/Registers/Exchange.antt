-- ===== src/Serial/Registers/Exchange.antt =====
-- `_exchange` and `read_register` of src/rh56_driver/serial_backend.py, over the chunks that the port
-- delivers.
use mathlib.Core.List.{append-nil, append_assoc}
use embodied_hand_lab.Prelude.{
  ℕ, ◌+◌, ◌%◌, ◌/◌, ◌≤◌, ◌<◌, ◌≡◌, ◌++◌, true, false, List, [], ◌∷◌, leb, leb→le, ltb, arith,
  length, refl, ap, ◌∙◌, sym, first, concat, none, some, Result, ok, err, Bool-cases, inl, inr, all,
  length-append,
}
use embodied_hand_lab.Serial.Frames.{sum, build_frame, split, split_frames}
use embodied_hand_lab.Serial.Frames.Splitting.{IsFrame, IsNoise, split-noise, split-frame}
use embodied_hand_lab.Serial.Frames.Chunks.{split_frames-Begins}
use embodied_hand_lab.Serial.Registers.{
  Backend, Error, collect, exchange, finish_read, read_register, check_read,
}
use embodied_hand_lab.Serial.Registers.Reads.{read_reply, check_read-reply, check_read_sound}

-- The frame around a payload.
abbrev framed : List ℕ → List ℕ
framed payload = 0xEB ∷ 0x90 ∷ payload ++ sum payload % 256 ∷ []

-- The payload of a read.
abbrev read_payload : ℕ → ℕ → ℕ → List ℕ
read_payload hand_id address len =
    hand_id ∷ 0x04 ∷ 0x11 ∷ address % 256 ∷ (address / 256) % 256 ∷ len ∷ []

first-append : {A : Type 0} (xs ys : List A) → 1 ≤ length xs → first (xs ++ ys) ≡ first xs
first-append [] ys h = absurd (omega arith)
first-append (x ∷ xs) ys h = refl

empty_of_leb : (xs : List (List ℕ)) → leb 1 (length xs) ≡ false → xs ≡ []
empty_of_leb [] h = refl
empty_of_leb (x ∷ xs) h = absurd (ground arith)

first-collect_from :
    (chunks : List (List ℕ)) (buffer : List ℕ)
    → split_frames buffer ≡ []
    → first (collect 1 chunks buffer []) ≡ first (split_frames (buffer ++ concat chunks))
unfolding collect
first-collect_from [] buffer h = rw (append-nil, h) refl
first-collect_from ([] ∷ chunks) buffer h = first-collect_from chunks buffer h
first-collect_from ((c ∷ cs) ∷ chunks) buffer h =
    elim (Bool-cases (leb 1 (length (split_frames buffer')))) [
      | inl got ↦ rw got (first_now (leb→le _ _ got))
      | inr nothing ↦
          rw (nothing, nothing_yet nothing)
            (first-collect_from chunks buffer' (nothing_yet nothing)
              ∙ ap (λ t. first (split_frames t)) (append_assoc buffer (c ∷ cs) (concat chunks)))
    ]
  where
    buffer' : List ℕ
    buffer' = buffer ++ c ∷ cs

    first_now :
        1 ≤ length (split_frames buffer')
        → first (split_frames buffer') ≡ first (split_frames (buffer ++ (c ∷ cs ++ concat chunks)))
    first_now got =
        let (more, eq) = split_frames-Begins buffer' (concat chunks) in
        sym (first-append (split_frames buffer') more got)
        ∙ ap (λ (t : List (List ℕ)). first t) (sym eq)
        ∙ ap (λ t. first (split_frames t)) (append_assoc buffer (c ∷ cs) (concat chunks))

    nothing_yet : leb 1 (length (split_frames buffer')) ≡ false → split_frames buffer' ≡ []
    nothing_yet e = empty_of_leb (split_frames buffer') e

-- How the port cuts the bytes into chunks does not matter: the first frame that an exchange returns
-- is the first frame of all that was received before the deadline, and there is none only if that
-- holds none.
pub first-collect :
    (chunks : List (List ℕ)) → first (collect 1 chunks [] []) ≡ first (split_frames (concat chunks))
unfolding split split_frames
first-collect chunks = first-collect_from chunks [] refl

read_reply-IsFrame :
    (hand_id address : ℕ) (bytes : List ℕ) → IsFrame (read_reply hand_id address bytes)
read_reply-IsFrame hand_id address bytes = record {
  first = refl;
  second = refl;
  complete = omega (arith, length-append bytes (_ ∷ []));
}

split_frames-reply :
    (noise tail : List ℕ) (hand_id address : ℕ) (bytes : List ℕ)
    → IsNoise noise
    → first (split_frames (noise ++ (read_reply hand_id address bytes ++ tail)))
      ≡ some (read_reply hand_id address bytes)
split_frames-reply noise tail hand_id address bytes quiet =
    let reply = read_reply hand_id address bytes in
    ap (λ (t : List (List ℕ)). first t)
      (split-noise noise (reply ++ tail) quiet
        ∙ split-frame reply tail (read_reply-IsFrame hand_id address bytes))

first_inv :
    (xs : List (List ℕ)) (x : List ℕ) → first xs ≡ some x → (more : List (List ℕ)) × (xs ≡ x ∷ more)
first_inv [] x h = cc
first_inv (y ∷ ys) x h = (ys, cc)

-- An open port is written one frame, around a payload of bytes.
pub exchange_sends :
    (b : Backend) (payload : List ℕ) (expected : ℕ) (chunks : List (List ℕ))
    → b.connected ≡ true
    → all (λ x. ltb x 256) payload ≡ true
    → exchange b payload expected chunks
      ≡ (record b { sent = b.sent ++ framed payload ∷ [] }, ok (collect expected chunks [] []))
unfolding exchange build_frame
exchange_sends b payload expected chunks c p = ground arith

finish_read-reply :
    (b : Backend) (address : ℕ) (bytes : List ℕ) (more : List (List ℕ))
    → finish_read b address (length bytes) (ok (read_reply b.hand_id address bytes ∷ more))
      ≡ (b, ok bytes)
unfolding finish_read
finish_read-reply b address bytes more = ground (arith, check_read-reply b.hand_id address bytes)

-- What a port that is open delivers ends in data: if the bytes received before the deadline, cut
-- into chunks in any way, are noise without the byte 0x90, the device's reply to this read and
-- anything else, then `read_register` returns the data of the reply. It has written one frame to the
-- port, and counts and remembers no failure.
pub read_register_returns :
    (b : Backend) (address : ℕ) (bytes noise tail : List ℕ) (chunks : List (List ℕ))
    → b.connected ≡ true
    → b.hand_id < 256
    → length bytes < 256
    → IsNoise noise
    → concat chunks ≡ noise ++ (read_reply b.hand_id address bytes ++ tail)
    → let r = read_register b address (length bytes) chunks in
      (r.1 ≡ ok bytes)
      × (length r.0.sent ≡ length b.sent + 1)
      × (r.0.timeout_count ≡ b.timeout_count)
      × (r.0.checksum_failure_count ≡ b.checksum_failure_count)
      × (r.0.protocol_error_count ≡ b.protocol_error_count)
      × (r.0.last_failure_context ≡ none)
unfolding read_register
read_register_returns b address bytes noise tail chunks open_port id_ok len_ok quiet delivered =
    let reply = read_reply b.hand_id address bytes in
    let (more, eq) = first_inv (collect 1 chunks [] []) reply (
      first-collect chunks
      ∙ ap (λ t. first (split_frames t)) delivered
      ∙ split_frames-reply noise tail b.hand_id address bytes quiet) in
    let payload = read_payload b.hand_id address (length bytes) in
    let fresh = record b { last_failure_context = none } in
    rw (exchange_sends fresh payload 1 chunks open_port (ground arith), eq)
      (rw
        (finish_read-reply (record fresh { sent = fresh.sent ++ framed payload ∷ [] }) address bytes
          more)
        (refl, omega (arith, length-append b.sent (framed payload ∷ [])), refl, refl, refl, refl))

pub exchange_inv :
    (b : Backend) (payload : List ℕ) (n : ℕ) (chunks frames : List (List ℕ))
    → (exchange b payload n chunks).1 ≡ ok frames
    → (b.connected ≡ true) × (frames ≡ collect n chunks [] [])
unfolding exchange
exchange_inv b payload n chunks frames h = ground arith

pub exchange-hand_id :
    (b : Backend) (payload : List ℕ) (n : ℕ) (chunks : List (List ℕ))
    → (exchange b payload n chunks).0.hand_id ≡ b.hand_id
unfolding exchange
exchange-hand_id b payload n chunks = ground arith

finish_read_inv :
    (b : Backend) (address len : ℕ) (r : Result Error (List (List ℕ))) (bytes : List ℕ)
    → (finish_read b address len r).1 ≡ ok bytes
    → (frame : List ℕ) × (more : List (List ℕ)) × (r ≡ ok (frame ∷ more))
      × (check_read b.hand_id address len frame ≡ ok bytes)
unfolding finish_read
finish_read_inv b address len (err e) bytes h = absurd (ground arith)
finish_read_inv b address len (ok []) bytes h = absurd (ground arith)
finish_read_inv b address len (ok (frame ∷ more)) bytes h = (frame, more, refl, ground arith)

-- Data comes back only from an open port and from the device's reply: the first frame received is
-- exactly the reply with those bytes, and there are as many as were asked for.
pub read_register_sound :
    (b : Backend) (address len : ℕ) (chunks : List (List ℕ)) (bytes : List ℕ)
    → (read_register b address len chunks).1 ≡ ok bytes
    → (b.connected ≡ true)
      × (first (split_frames (concat chunks)) ≡ some (read_reply b.hand_id address bytes))
      × (length bytes ≡ len)
unfolding read_register
read_register_sound b address len chunks bytes h =
    let payload = read_payload b.hand_id address len in
    let fresh = record b { last_failure_context = none } in
    let e = exchange fresh payload 1 chunks in
    let (frame, more, got, checked) = finish_read_inv e.0 address len e.1 bytes h in
    let (open_port, all_frames) = exchange_inv fresh payload 1 chunks (frame ∷ more) got in
    let same_id = exchange-hand_id fresh payload 1 chunks in
    let (exact, size) =
      check_read_sound b.hand_id address len frame bytes
        (ap (λ i. check_read i address len frame) (sym same_id) ∙ checked) in
    (
      open_port,
      sym (first-collect chunks)
          ∙ ap (λ (t : List (List ℕ)). first t) (sym all_frames)
          ∙ ap (λ (t : List ℕ). some t) exact,
      size,
    )
