-- ===== src/Wire/Status.antt =====
-- The status packets of src/teleoperation/wire.py: `decode_status`, `status_acknowledgement` and the
-- loop of `WorkerStatusReceiver.latest`. A double is its 64 bits; `crc32` is `zlib.crc32`.
pub mod Latest
use embodied_hand_lab.Prelude.{
  ℕ, ◌+◌, ◌-◌, ◌/◌, ◌%◌, ◌^◌, List, [], ◌∷◌, ◌++◌, Result, ok, err, if◌then◌else◌, ltb, length,
  take, drop, Bool, not, ◌||◌, ◌==◌, Option, none, some, get_or, get_elem?, String,
}
use embodied_hand_lab.Prelude.Int.{ℤ, pos, sub_ℕ}
use embodied_hand_lab.Lifecycle
use embodied_hand_lab.Lifecycle.{ControllerState}
use embodied_hand_lab.Wire.Layout.{size, unpack}
use embodied_hand_lab.Wire.Packets.{wire_version, doubles}

abbrev pub status_magic : ℕ
status_magic = 0x4A535441

-- `<IHHIQQQQQ6diI`; the error code is read as unsigned and made signed below.
abbrev pub status_struct : List ℕ
status_struct = 4 ∷ 2 ∷ 2 ∷ 4 ∷ 8 ∷ 8 ∷ 8 ∷ 8 ∷ 8 ∷ (doubles 6 ++ 4 ∷ 4 ∷ [])

pub record WorkerStatusPacket : Type 0 where
  pub state : ℕ
  pub flags : ℕ
  pub last_sequence : ℕ
  pub loop_sequence : ℕ
  pub worker_monotonic_ns : ℕ
  pub command_monotonic_ns : ℕ
  pub observation_monotonic_ns : ℕ
  pub joint_position_rad : List ℕ
  pub error_code : ℤ

-- The ValueErrors.
pub data Error : Type 0 where
  bad_size bad_magic crc_mismatch unknown_state : Error

-- The format `i`.
unfoldable pub signed_32 : ℕ → ℤ
signed_32 n = if ltb n (2 ^ 31) then pos n else sub_ℕ n (2 ^ 32)

-- `WorkerStatusPacket(values[2], ...)`
unfoldable pub status_of : List ℕ → WorkerStatusPacket
unfolding signed_32
status_of values = record {
  state = get_or values 2 0;
  flags = get_or values 3 0;
  last_sequence = get_or values 4 0;
  loop_sequence = get_or values 5 0;
  worker_monotonic_ns = get_or values 6 0;
  command_monotonic_ns = get_or values 7 0;
  observation_monotonic_ns = get_or values 8 0;
  joint_position_rad = take 6 (drop 9 values);
  error_code = signed_32 (get_or values 15 0);
}

-- `StatusFlags(flags) & flag` for the flag `1 << bit`
abbrev pub has_flag : ℕ → ℕ → Bool
has_flag flags bit = flags / 2 ^ bit % 2 == 1

-- `tuple(ControllerState)`
abbrev pub controller_states : List ControllerState
controller_states =
    Lifecycle.disconnected ∷ Lifecycle.connecting ∷ Lifecycle.connected ∷ Lifecycle.armed
    ∷ Lifecycle.edg_ready ∷ Lifecycle.holding ∷ Lifecycle.running ∷ Lifecycle.controlled_stop
    ∷ Lifecycle.fault ∷ Lifecycle.shutdown ∷ []

-- `CommandAcknowledgement` of src/teleoperation/contracts.py, which numbers from a status always pass.
pub record CommandAcknowledgement : Type 0 where
  pub sequence : ℕ
  pub accepted : Bool
  pub state : ControllerState
  pub received_monotonic_ns : ℕ
  pub robot_command_monotonic_ns : Option ℕ
  pub reason : String

unfoldable pub status_acknowledgement :
    WorkerStatusPacket → Result Error (Option CommandAcknowledgement)
status_acknowledgement p =
    let accepted = has_flag p.flags 4 in
    if not (has_flag p.flags 3) then ok none else elim (get_elem? controller_states p.state) [
      | none ↦ err unknown_state
      | some state ↦ ok (
          some (record {
            sequence = p.last_sequence;
            accepted = accepted;
            state = state;
            received_monotonic_ns = p.worker_monotonic_ns;
            robot_command_monotonic_ns =
                if p.command_monotonic_ns == 0 then none else some p.command_monotonic_ns;
            reason =
                if accepted
                then "accepted"
                else "latest target retained; no new acceptance in this status interval";
          }))
    ]

module _ (crc32 : List ℕ → ℕ) where
  unfoldable pub decode_status : List ℕ → Result Error WorkerStatusPacket
  decode_status bytes =
      let values = unpack status_struct bytes in
      if not (length bytes == size status_struct)
      then err bad_size
      else if not (get_or values 0 0 == status_magic) || not (get_or values 1 0 == wire_version)
      then err bad_magic
      else if not (crc32 (take (length bytes - 4) bytes) % 2 ^ 32 == get_or values 16 0)
      then err crc_mismatch
      else ok (status_of values)

  -- The loop of `latest` over the datagrams that wait at the socket, from the result so far; `recv`
  -- cuts a datagram to one byte more than a status has.
  unfoldable pub drain : Option WorkerStatusPacket → List (List ℕ) → Option WorkerStatusPacket
  drain result [] = result
  drain result (bytes ∷ rest) = elim (decode_status (take (size status_struct + 1) bytes)) [
    | ok p ↦ drain (some p) rest
    | err e ↦ drain result rest
  ]

  unfoldable pub latest : List (List ℕ) → Option WorkerStatusPacket
  unfolding drain
  latest waiting = drain none waiting
