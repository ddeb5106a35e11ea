-- ===== src/Serial/Registers/Failures.antt =====
-- How src/rh56_driver/serial_backend.py accounts for the transactions that fail.
use embodied_hand_lab.Prelude.{
  ℕ, ◌+◌, ◌%◌, ◌/◌, ◌≡◌, Bool, true, false, List, [], ◌∷◌, arith, length, refl, none, Result, ok,
  err, is_none, ◌↔◌,
}
use embodied_hand_lab.Serial.Registers.{
  Backend, Error, serial_error, exchange, finish_read, read_register, finish_write, write_register,
}

-- The failures that are counted.
abbrev pub failures : Backend → ℕ
failures b = b.timeout_count + b.checksum_failure_count + b.protocol_error_count

-- Whether a read raised a typed serial error.
abbrev pub serial_failures : Result Error (List ℕ) → ℕ
serial_failures (err (serial_error f)) = 1
serial_failures _ = 0

-- Whether a write raised a typed serial error or was not acknowledged.
abbrev pub unacknowledged : Result Error Bool → ℕ
unacknowledged (err (serial_error f)) = 1
unacknowledged (ok false) = 1
unacknowledged _ = 0

exchange_failures :
    (b : Backend) (payload : List ℕ) (n : ℕ) (chunks : List (List ℕ))
    → let r = exchange b payload n chunks in
      (r.0.timeout_count ≡ b.timeout_count)
      × (r.0.checksum_failure_count ≡ b.checksum_failure_count)
      × (r.0.protocol_error_count ≡ b.protocol_error_count)
      × (r.0.last_failure_context ≡ b.last_failure_context)
      × (r.0.register_write_count ≡ b.register_write_count)
unfolding exchange
exchange_failures b payload n chunks = ground arith

-- An exchange raises no typed serial error.
abbrev is_serial : Error → Bool
is_serial (serial_error f) = true
is_serial _ = false

exchange_raises :
    (b : Backend) (payload : List ℕ) (n : ℕ) (chunks : List (List ℕ)) (e : Error)
    → (exchange b payload n chunks).1 ≡ err e
    → is_serial e ≡ false
unfolding exchange
exchange_raises b payload n chunks e h = ground arith

finish_read-failures :
    (b : Backend) (address len : ℕ) (r : Result Error (List (List ℕ)))
    → b.last_failure_context ≡ none
    → ((e : Error) → r ≡ err e → is_serial e ≡ false)
    → let t = finish_read b address len r in
      (failures t.0 ≡ failures b + serial_failures t.1)
      × ((is_none t.0.last_failure_context ≡ false) ↔ (serial_failures t.1 ≡ 1))
unfolding finish_read
finish_read-failures b address len (err e) h k =
    let typed = k e refl in (ground arith, (λ x. ground arith, λ x. ground arith))
finish_read-failures b address len (ok []) h k =
    (ground arith, (λ x. ground arith, λ x. ground arith))
finish_read-failures b address len (ok (frame ∷ more)) h k =
    (ground arith, (λ x. ground arith, λ x. ground arith))

-- Each read counts one failure, in one of the three counters, if it raises a typed serial error, and
-- none otherwise; and a failure is remembered exactly then.
pub read_register-failures :
    (b : Backend) (address len : ℕ) (chunks : List (List ℕ))
    → let t = read_register b address len chunks in
      (failures t.0 ≡ failures b + serial_failures t.1)
      × ((is_none t.0.last_failure_context ≡ false) ↔ (serial_failures t.1 ≡ 1))
unfolding read_register
read_register-failures b address len chunks =
    let fresh = record b { last_failure_context = none } in
    let payload = b.hand_id ∷ 0x04 ∷ 0x11 ∷ address % 256 ∷ (address / 256) % 256 ∷ len ∷ [] in
    let e = exchange fresh payload 1 chunks in
    let same = exchange_failures fresh payload 1 chunks in
    let (count, context) =
      finish_read-failures e.0 address len e.1 same.3 (exchange_raises fresh payload 1 chunks) in
    (omega (arith, count, same), context)

finish_write-failures :
    (b : Backend) (address n : ℕ) (r : Result Error (List (List ℕ)))
    → b.last_failure_context ≡ none
    → ((e : Error) → r ≡ err e → is_serial e ≡ false)
    → let t = finish_write b address n r in
      (failures t.0 ≡ failures b + unacknowledged t.1)
      × ((is_none t.0.last_failure_context ≡ false) ↔ (unacknowledged t.1 ≡ 1))
      × (t.0.register_write_count ≡ b.register_write_count)
unfolding finish_write
finish_write-failures b address n (err e) h k =
    let typed = k e refl in (ground arith, (λ x. ground arith, λ x. ground arith), refl)
finish_write-failures b address n (ok []) h k =
    (ground arith, (λ x. ground arith, λ x. ground arith), ground arith)
finish_write-failures b address n (ok (frame ∷ more)) h k =
    (ground arith, (λ x. ground arith, λ x. ground arith), ground arith)

-- Each write is counted once as a write, whatever comes of it. It counts one failure, and remembers
-- one, exactly if it raises a typed serial error or returns False.
pub write_register-failures :
    (b : Backend) (address : ℕ) (bytes : List ℕ) (chunks : List (List ℕ))
    → let t = write_register b address bytes chunks in
      (t.0.register_write_count ≡ b.register_write_count + 1)
      × (failures t.0 ≡ failures b + unacknowledged t.1)
      × ((is_none t.0.last_failure_context ≡ false) ↔ (unacknowledged t.1 ≡ 1))
unfolding write_register
write_register-failures b address bytes chunks =
    let fresh = record b {
      last_failure_context = none;
      register_write_count = b.register_write_count + 1;
    } in
    let payload =
      b.hand_id ∷ (length bytes + 3) ∷ 0x12 ∷ address % 256 ∷ (address / 256) % 256 ∷ bytes in
    let e = exchange fresh payload 1 chunks in
    let same = exchange_failures fresh payload 1 chunks in
    let (count, context, writes) =
      finish_write-failures e.0 address (length bytes) e.1 same.3
        (exchange_raises fresh payload 1 chunks) in
    (omega (arith, writes, same), omega (arith, count, same), context)
