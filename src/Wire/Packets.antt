-- ===== src/Wire/Packets.antt =====
-- The target packets of src/teleoperation/wire.py: `encode_target`, `decode_target` and the functions
-- that make packets. A double is its 64 bits; `crc32` is `zlib.crc32`.
pub mod Values
pub mod RoundTrip
use embodied_hand_lab.Prelude.{
  ℕ, zero, suc, ◌+◌, ◌*◌, ◌-◌, ◌/◌, ◌%◌, ◌^◌, List, [], ◌∷◌, ◌++◌, Result, ok, err, if◌then◌else◌,
  ltb, length, take, drop, all, Bool, true, false, not, ◌&&◌, ◌||◌, ◌==◌, map, Option, none, some,
  get_or, String, guard, ◌>>◌, ◌>>=◌,
}
use text.Mathlib.Text.{◌==◌ as str_eq}
use embodied_hand_lab.Prelude.Int.{ℤ, pos, negsuc, lebℤ, ltbℤ}
use embodied_hand_lab.Wire.Layout
use embodied_hand_lab.Wire.Layout.{pack, unpack, size, bytes_of}

abbrev pub target_magic : ℕ
target_magic = 0x4A544754

abbrev pub wire_version : ℕ
wire_version = 1

-- `8d`
abbrev pub doubles : ℕ → List ℕ
doubles zero = []
doubles (suc n) = 8 ∷ doubles n

-- `<IHHIIQQQQQ8d`; with the checksum an `I` follows.
abbrev pub target_without_crc : List ℕ
target_without_crc = 4 ∷ 2 ∷ 2 ∷ 4 ∷ 4 ∷ 8 ∷ 8 ∷ 8 ∷ 8 ∷ 8 ∷ doubles 8

abbrev pub target_struct : List ℕ
target_struct = target_without_crc ++ 4 ∷ []

pub data TargetKind : Type 0 where
  heartbeat hold_current joint_position cartesian_pose stop : TargetKind

abbrev pub kind_code : TargetKind → ℕ
kind_code heartbeat = 0
kind_code hold_current = 1
kind_code joint_position = 2
kind_code cartesian_pose = 3
kind_code stop = 4

-- `TargetKind(value)`
unfoldable pub kind_of : ℕ → Option TargetKind
kind_of n =
    if n == 0
    then some heartbeat
    else if n == 1
    then some hold_current
    else if n == 2
    then some joint_position
    else if n == 3
    then some cartesian_pose
    else if n == 4
    then some stop
    else none

pub data FrameId : Type 0 where
  no_frame robot_base startup_tcp_relative : FrameId

abbrev pub frame_code : FrameId → ℕ
frame_code no_frame = 0
frame_code robot_base = 1
frame_code startup_tcp_relative = 2

-- `FrameId(value)`
unfoldable pub frame_of : ℕ → Option FrameId
frame_of n =
    if n == 0
    then some no_frame
    else if n == 1
    then some robot_base
    else if n == 2
    then some startup_tcp_relative
    else none

-- The flags are an `IntFlag`, which keeps unknown bits; a double of the payload is its bits.
pub record TargetPacket : Type 0 where
  pub kind : TargetKind
  pub flags : ℤ
  pub frame_id : FrameId
  pub sequence : ℤ
  pub source_capture_ns : ℤ
  pub local_receive_ns : ℤ
  pub processing_ns : ℤ
  pub dispatch_ns : ℤ
  pub payload : List ℕ

-- What `struct` raises, and the ValueErrors.
pub data Error : Type 0 where
  struct_error : Layout.Error → Error
  bad_size bad_magic crc_mismatch unknown_kind unknown_frame : Error

-- The arguments of `pack`.
unfoldable pub target_values : TargetPacket → List ℤ
target_values p =
    pos target_magic
    ∷ pos wire_version
    ∷ pos (kind_code p.kind)
    ∷ p.flags
    ∷ pos (frame_code p.frame_id)
    ∷ p.sequence
    ∷ p.source_capture_ns
    ∷ p.local_receive_ns
    ∷ p.processing_ns
    ∷ p.dispatch_ns
    ∷ map (λ x. pos x) p.payload

abbrev pub with_crc : (List ℕ → ℕ) → Result Layout.Error (List ℕ) → Result Error (List ℕ)
with_crc crc32 (ok body) = ok (body ++ bytes_of 4 (crc32 body % 2 ^ 32))
with_crc crc32 (err e) = err (struct_error e)

-- `TargetPacket(TargetKind(values[2]), ...)`
abbrev pub made : TargetKind → FrameId → ℤ → List ℕ → List ℕ → TargetPacket
made kind frame flags numbers payload = record {
  kind = kind;
  flags = flags;
  frame_id = frame;
  sequence = pos (get_or numbers 5 0);
  source_capture_ns = pos (get_or numbers 6 0);
  local_receive_ns = pos (get_or numbers 7 0);
  processing_ns = pos (get_or numbers 8 0);
  dispatch_ns = pos (get_or numbers 9 0);
  payload = payload;
}

abbrev pub packet_of :
    Option TargetKind → Option FrameId → ℤ → List ℕ → List ℕ → Result Error TargetPacket
packet_of none frame flags numbers payload = err unknown_kind
packet_of (some kind) none flags numbers payload = err unknown_frame
packet_of (some kind) (some frame) flags numbers payload =
    ok (made kind frame flags numbers payload)

module _ (crc32 : List ℕ → ℕ) where
  unfoldable pub encode_target : TargetPacket → Result Error (List ℕ)
  unfolding target_values
  encode_target p = with_crc crc32 (pack target_without_crc (target_values p))

  -- The tests of `decode_target` on the unpacked values and the data.
  unfoldable pub decode_values : List ℕ → List ℕ → Result Error TargetPacket
  decode_values values bytes =
      if not (get_or values 0 0 == target_magic) || not (get_or values 1 0 == wire_version)
      then err bad_magic
      else if not (crc32 (take (length bytes - 4) bytes) % 2 ^ 32 == get_or values 18 0)
      then err crc_mismatch
      else packet_of (kind_of (get_or values 2 0)) (frame_of (get_or values 4 0))
          (pos (get_or values 3 0)) values (take 8 (drop 10 values))

  unfoldable pub decode_target : List ℕ → Result Error TargetPacket
  decode_target bytes =
      if not (length bytes == size target_struct)
      then err bad_size
      else decode_values (unpack target_struct bytes) bytes
