-- ===== src/Serial/Registers.antt =====
-- Register reads and writes of src/rh56_driver/serial_backend.py. The serial port is a parameter:
-- a call is given the chunks of bytes that the reads of `_exchange` return before its deadline (an
-- empty chunk for a read that timed out), and `sent` records the frames written to the port.
pub mod Reads
pub mod Exchange
pub mod Failures
pub mod Writes
use embodied_hand_lab.Prelude.{
  ℕ, zero, suc, ◌+◌, ◌%◌, ◌/◌, ◌-◌, ◌*◌, ◌++◌, Bool, true, false, String, List, [], ◌∷◌, Result, ok,
  err, ltb, leb, length, if◌then◌else◌, ◌==◌, ◌&&◌, ◌||◌, not, take, drop, get_or, Option, none,
  some,
}
use embodied_hand_lab.Serial.Frames
use embodied_hand_lab.Serial.Frames.{build_frame, split_frames, validate_checksum}

-- The `code` of an `RH56SerialError`.
pub data Code : Type 0 where
  timeout checksum_failure response_validation_failure response_length_failure : Code
  response_length_mismatch acknowledgement_validation_failure : Code

pub data Operation : Type 0 where
  read_operation write_operation : Operation

-- The record of `_remember_failure`; `context` holds the lengths that it names.
pub record Failure : Type 0 where
  pub code : Code
  pub operation : Operation
  pub address : ℕ
  pub register : Option String
  pub context : List (String × ℕ)

-- What a call raises: the RuntimeError of a closed port, the ValueError of `bytes(...)`, or a typed
-- serial error.
pub data Error : Type 0 where
  not_connected : Error
  bad_frame : Frames.Error → Error
  serial_error : Failure → Error

pub record Backend : Type 0 where
  pub hand_id : ℕ
  pub protocol_order : List String
  pub connected : Bool
  pub sent : List (List ℕ)
  pub register_write_count : ℕ
  pub timeout_count : ℕ
  pub checksum_failure_count : ℕ
  pub protocol_error_count : ℕ
  pub last_failure_context : Option Failure

-- `REG`
abbrev pub registers : List (String × ℕ)
registers =
    ("CLEAR_ERROR", 1004)
    ∷ ("GESTURE_FORCE_CLB", 1009)
    ∷ ("POS_SET", 1474)
    ∷ ("ANGLE_SET", 1486)
    ∷ ("FORCE_SET", 1498)
    ∷ ("SPEED_SET", 1522)
    ∷ ("POS_ACT", 1534)
    ∷ ("ANGLE_ACT", 1546)
    ∷ ("FORCE_ACT", 1582)
    ∷ ("CURRENT", 1594)
    ∷ ("ERROR", 1606)
    ∷ ("STATUS", 1612)
    ∷ ("TEMP", 1618)
    ∷ ("ACTION_SEQ_IDX", 2320)
    ∷ ("ACTION_SEQ_RUN", 2322)
    ∷ []

unfoldable pub name_of : List (String × ℕ) → ℕ → Option String
name_of [] address = none
name_of ((name, value) ∷ rest) address =
    if value == address then some name else name_of rest address

-- `_register_name`
unfoldable pub register_name : ℕ → Option String
unfolding name_of
register_name address = name_of registers address

-- `_remember_failure`
unfoldable pub remember_failure :
    Backend → Code → Operation → ℕ → List (String × ℕ) → Backend × Failure
remember_failure b code operation address context =
    let failure : Failure = record {
      code = code;
      operation = operation;
      address = address;
      register = register_name address;
      context = context;
    } in
    (record b { last_failure_context = some failure }, failure)

-- The loop of `_exchange`: the whole buffer is split again after each chunk.
unfoldable pub collect : ℕ → List (List ℕ) → List ℕ → List (List ℕ) → List (List ℕ)
collect expected [] buffer frames = frames
collect expected ([] ∷ chunks) buffer frames = collect expected chunks buffer frames
collect expected ((c ∷ cs) ∷ chunks) buffer frames =
    let buffer' = buffer ++ c ∷ cs in
    let later = collect expected chunks buffer' (split_frames buffer') in
    if leb expected (length (split_frames buffer')) then split_frames buffer' else later

-- `_exchange`
unfoldable pub exchange :
    Backend → List ℕ → ℕ → List (List ℕ) → Backend × Result Error (List (List ℕ))
exchange b payload expected chunks =
    if not b.connected then (b, err not_connected) else elim (build_frame payload) [
      | err e ↦ (b, err (bad_frame e))
      | ok frame ↦ (record b { sent = b.sent ++ frame ∷ [] }, ok (collect expected chunks [] []))
    ]

-- The header and echo test of `read_register`.
unfoldable pub is_read_reply : ℕ → ℕ → List ℕ → Bool
is_read_reply hand_id address frame =
    leb 8 (length frame)
    && (get_or frame 0 0 == 0x90
        && (get_or frame 1 0 == 0xEB
            && (get_or frame 2 0 == hand_id
                && (get_or frame 4 0 == 0x11
                    && (get_or frame 5 0 == address % 256
                        && get_or frame 6 0 == (address / 256) % 256)))))

-- `read_register` on the first frame of the reply: what is wrong with it, with the context that is
-- recorded, or the data.
unfoldable pub check_read : ℕ → ℕ → ℕ → List ℕ → Result (Code × List (String × ℕ)) (List ℕ)
unfolding is_read_reply
check_read hand_id address len frame =
    let context = ("requested_length", len) ∷ ("response_length", length frame) ∷ [] in
    let context' =
      ("requested_length", len)
      ∷ ("register_length", get_or frame 3 0 - 3)
      ∷ ("response_length", length frame)
      ∷ [] in
    if not (validate_checksum frame)
    then err (checksum_failure, context)
    else if not (is_read_reply hand_id address frame)
    then err (response_validation_failure, context)
    else if ltb (get_or frame 3 0) 3
    then err (response_length_failure, context)
    else if not (get_or frame 3 0 - 3 == len) || not (length frame == 8 + (get_or frame 3 0 - 3))
    then err (response_length_mismatch, context')
    else ok (take (get_or frame 3 0 - 3) (drop 7 frame))

-- The counter that a failure of a read goes to.
unfoldable pub count_failure : Backend → Code → Backend
count_failure b timeout = record b { timeout_count = b.timeout_count + 1 }
count_failure b checksum_failure = record b {
  checksum_failure_count = b.checksum_failure_count + 1;
}
count_failure b _ = record b { protocol_error_count = b.protocol_error_count + 1 }

-- Count, remember and raise.
unfoldable pub raise :
    Backend → Code → Operation → ℕ → List (String × ℕ) → Backend × Result Error (List ℕ)
unfolding count_failure remember_failure
raise b code operation address context =
    let (b', failure) = remember_failure (count_failure b code) code operation address context in
    (b', err (serial_error failure))

-- The part of `read_register` behind the exchange.
unfoldable pub finish_read :
    Backend → ℕ → ℕ → Result Error (List (List ℕ)) → Backend × Result Error (List ℕ)
unfolding raise
finish_read b address len (err e) = (b, err e)
finish_read b address len (ok []) =
    raise b timeout read_operation address (("requested_length", len) ∷ [])
finish_read b address len (ok (frame ∷ _)) = elim (check_read b.hand_id address len frame) [
  | ok bytes ↦ (b, ok bytes)
  | err (code, context) ↦ raise b code read_operation address context
]

-- `read_register`
unfoldable pub read_register : Backend → ℕ → ℕ → List (List ℕ) → Backend × Result Error (List ℕ)
unfolding exchange finish_read
read_register b address len chunks =
    let payload = b.hand_id ∷ 0x04 ∷ 0x11 ∷ address % 256 ∷ (address / 256) % 256 ∷ len ∷ [] in
    let (b', frames) = exchange (record b { last_failure_context = none }) payload 1 chunks in
    finish_read b' address len frames

-- The acknowledgement test of `write_register`.
unfoldable pub is_acknowledgement : ℕ → ℕ → List ℕ → Bool
is_acknowledgement hand_id address frame =
    length frame == 9
    && (get_or frame 0 0 == 0x90
        && (get_or frame 1 0 == 0xEB
            && (get_or frame 2 0 == hand_id
                && (get_or frame 3 0 == 0x04
                    && (get_or frame 4 0 == 0x12
                        && (get_or frame 5 0 == address % 256
                            && (get_or frame 6 0 == (address / 256) % 256
                                && get_or frame 7 0 == 0x01)))))))

-- The part of `write_register` behind the exchange, for `n` bytes of data.
unfoldable pub finish_write :
    Backend → ℕ → ℕ → Result Error (List (List ℕ)) → Backend × Result Error Bool
unfolding count_failure remember_failure
finish_write b address n (err e) = (b, err e)
finish_write b address n (ok []) =
    let (b', failure) =
      remember_failure (count_failure b timeout) timeout write_operation address
        (("data_length", n) ∷ []) in
    (b', err (serial_error failure))
finish_write b address n (ok (frame ∷ _)) =
    let context = ("data_length", n) ∷ ("response_length", length frame) ∷ [] in
    if not (validate_checksum frame)
    then (
      (remember_failure (count_failure b checksum_failure) checksum_failure write_operation address
          context).0,
      ok false,
    )
    else if is_acknowledgement b.hand_id address frame
    then (b, ok true)
    else (
      (remember_failure (count_failure b acknowledgement_validation_failure)
          acknowledgement_validation_failure write_operation address context).0,
      ok false,
    )

-- `write_register`
unfoldable pub write_register : Backend → ℕ → List ℕ → List (List ℕ) → Backend × Result Error Bool
unfolding exchange finish_write
write_register b address bytes chunks =
    let payload =
      b.hand_id ∷ (length bytes + 3) ∷ 0x12 ∷ address % 256 ∷ (address / 256) % 256 ∷ bytes in
    let (b', frames) =
      exchange
        (record b {
          last_failure_context = none;
          register_write_count = b.register_write_count + 1;
        })
        payload 1 chunks in
    finish_write b' address (length bytes) frames
