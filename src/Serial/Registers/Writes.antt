-- ===== src/Serial/Registers/Writes.antt =====
-- What `write_register` of src/rh56_driver/serial_backend.py takes for an acknowledgement.
use embodied_hand_lab.Prelude.{
  ℕ, ◌+◌, ◌%◌, ◌/◌, ◌≡◌, ◌++◌, true, List, [], ◌∷◌, Result, ok, err, length, first, concat, none,
  some, arith, refl, ap, ◌∙◌, sym,
}
use embodied_hand_lab.Serial.Frames.{sum, split_frames, validate_checksum}
use embodied_hand_lab.Serial.Registers.{
  Backend, Error, exchange, is_acknowledgement, finish_write, write_register,
}
use embodied_hand_lab.Serial.Registers.Reads.{checksum_lem}
use embodied_hand_lab.Serial.Registers.Exchange.{first-collect, exchange_inv, exchange-hand_id}

-- The acknowledgement of the device: the header, its id, the length 4, the command, the address, the
-- flag 1 and the checksum of all but the header.
abbrev pub acknowledgement : ℕ → ℕ → List ℕ
acknowledgement hand_id address =
    let middle = hand_id ∷ 0x04 ∷ 0x12 ∷ address % 256 ∷ (address / 256) % 256 ∷ 0x01 ∷ [] in
    0x90 ∷ 0xEB ∷ (middle ++ sum middle % 256 ∷ [])

acknowledgement_long :
    (hand_id address : ℕ) (frame : List ℕ)
    → is_acknowledgement hand_id address frame ≡ true
    → length frame ≡ 9
unfolding is_acknowledgement
acknowledgement_long hand_id address frame h = ground arith

acknowledgement_inv :
    (hand_id address f0 f1 f2 f3 f4 f5 f6 f7 f8 : ℕ)
    → is_acknowledgement hand_id address (f0 ∷ f1 ∷ f2 ∷ f3 ∷ f4 ∷ f5 ∷ f6 ∷ f7 ∷ f8 ∷ []) ≡ true
    → (f0 ≡ 0x90)
      × (f1 ≡ 0xEB)
      × (f2 ≡ hand_id)
      × (f3 ≡ 0x04)
      × (f4 ≡ 0x12)
      × (f5 ≡ address % 256)
      × (f6 ≡ (address / 256) % 256)
      × (f7 ≡ 0x01)
unfolding is_acknowledgement
acknowledgement_inv hand_id address f0 f1 f2 f3 f4 f5 f6 f7 f8 h = ground arith

acknowledgement_sound :
    (hand_id address : ℕ) (frame : List ℕ)
    → is_acknowledgement hand_id address frame ≡ true
    → validate_checksum frame ≡ true
    → frame ≡ acknowledgement hand_id address
acknowledgement_sound hand_id address (f0 ∷ f1 ∷ f2 ∷ f3 ∷ f4 ∷ f5 ∷ f6 ∷ f7 ∷ f8 ∷ []) h v =
    let (e0, e1, e2, e3, e4, e5, e6, e7) =
      acknowledgement_inv hand_id address f0 f1 f2 f3 f4 f5 f6 f7 f8 h in
    let s = (checksum_lem f0 f1 f2 f3 f4 f5 f6 1 (f7 ∷ f8 ∷ []) refl).0 v in cc
acknowledgement_sound hand_id address _ h v =
    absurd (omega (arith, acknowledgement_long hand_id address _ h))

finish_write_inv :
    (b : Backend) (address n : ℕ) (r : Result Error (List (List ℕ)))
    → (finish_write b address n r).1 ≡ ok true
    → (frame : List ℕ) × (more : List (List ℕ)) × (r ≡ ok (frame ∷ more))
      × (is_acknowledgement b.hand_id address frame ≡ true)
      × (validate_checksum frame ≡ true)
unfolding finish_write
finish_write_inv b address n (err e) h = absurd (ground arith)
finish_write_inv b address n (ok []) h = absurd (ground arith)
finish_write_inv b address n (ok (frame ∷ more)) h = (frame, more, refl, ground arith, ground arith)

-- A write returns True only on an open port and only if the first frame received is, byte for byte,
-- the device's acknowledgement of a write to this address.
pub write_register_sound :
    (b : Backend) (address : ℕ) (bytes : List ℕ) (chunks : List (List ℕ))
    → (write_register b address bytes chunks).1 ≡ ok true
    → (b.connected ≡ true)
      × (first (split_frames (concat chunks)) ≡ some (acknowledgement b.hand_id address))
unfolding write_register
write_register_sound b address bytes chunks h =
    let fresh = record b {
      last_failure_context = none;
      register_write_count = b.register_write_count + 1;
    } in
    let payload =
      b.hand_id ∷ (length bytes + 3) ∷ 0x12 ∷ address % 256 ∷ (address / 256) % 256 ∷ bytes in
    let e = exchange fresh payload 1 chunks in
    let (frame, more, got, matches, sums) = finish_write_inv e.0 address (length bytes) e.1 h in
    let (open_port, all_frames) = exchange_inv fresh payload 1 chunks (frame ∷ more) got in
    let same_id = exchange-hand_id fresh payload 1 chunks in
    let exact =
      acknowledgement_sound b.hand_id address frame
        (ap (λ i. is_acknowledgement i address frame) (sym same_id) ∙ matches) sums in
    (
      open_port,
      sym (first-collect chunks)
          ∙ ap (λ (t : List (List ℕ)). first t) (sym all_frames)
          ∙ ap (λ (t : List ℕ). some t) exact,
    )
