-- ===== src/Wire/Requests/Delivery.antt =====
-- The packets that the functions of src/teleoperation/wire.py return are encoded and decoded unchanged.
use mathlib.Core.Path.{subst}
use embodied_hand_lab.Prelude.{
  ℕ, zero, suc, ◌^◌, ◌<◌, ◌≡◌, List, [], ◌∷◌, map, ok, arith, length, All, Bool, true, false,
  Option,
}
use embodied_hand_lab.Prelude.Int.{ℤ, pos, negsuc}
use embodied_hand_lab.Wire.Layout.Codec.{Fits}
use embodied_hand_lab.Wire.Packets.{
  TargetKind, FrameId, TargetPacket, kind_code, frame_code, target_magic, wire_version, doubles,
  target_without_crc, target_values, encode_target, decode_target,
}
use embodied_hand_lab.Wire.Packets.RoundTrip.{decode_target_iff, encode_target-bytes}
use embodied_hand_lab.Wire.Requests.{motion_flag}
use embodied_hand_lab.Wire.Requests.Safety.{
  Request, make, allows_motion, HasShape, Kept, Promise, make-Promise,
}

-- A number of 64 bits, and of a width.
abbrev pub InField : ℕ → ℤ → Type 0
InField w (pos n) = n < 256 ^ w
InField w (negsuc n) = ⊥

Fits-cons :
    (w : ℕ) (v : ℤ) (ws : List ℕ) (vs : List ℤ) → InField w v → Fits ws vs → Fits (w ∷ ws) (v ∷ vs)
Fits-cons w (pos n) ws vs h k = (h, k)
Fits-cons w (negsuc n) ws vs h k = absurd h

doubles-Fits :
    (n : ℕ) (xs : List ℕ)
    → length xs ≡ n
    → All (λ x. x < 256 ^ 8) xs
    → Fits (doubles n) (map (λ x. pos x) xs)
doubles-Fits zero [] l h = tt
doubles-Fits zero (x ∷ xs) l h = absurd (omega (arith, l))
doubles-Fits (suc n) [] l h = absurd (omega (arith, l))
doubles-Fits (suc n) (x ∷ xs) l h = (h.0, doubles-Fits n xs (omega (arith, l)) h.1)

-- The numbers of a packet fit 64 bits, and its doubles are of 64 bits.
pub record InWords (p : TargetPacket) : Type 0 where
  pub sequence : InField 8 p.sequence
  pub source_capture_ns : InField 8 p.source_capture_ns
  pub local_receive_ns : InField 8 p.local_receive_ns
  pub processing_ns : InField 8 p.processing_ns
  pub dispatch_ns : InField 8 p.dispatch_ns
  pub payload : All (λ x. x < 256 ^ 8) p.payload

kind-fits : (k : TargetKind) → kind_code k < 256 ^ 2
kind-fits TargetKind.heartbeat = omega arith
kind-fits TargetKind.hold_current = omega arith
kind-fits TargetKind.joint_position = omega arith
kind-fits TargetKind.cartesian_pose = omega arith
kind-fits TargetKind.stop = omega arith

frame-fits : (f : FrameId) → frame_code f < 256 ^ 4
frame-fits FrameId.no_frame = omega arith
frame-fits FrameId.robot_base = omega arith
frame-fits FrameId.startup_tcp_relative = omega arith

flag-fits : (b : Bool) → InField 4 (motion_flag b)
flag-fits true = omega arith
flag-fits false = omega arith

numbers-Fits :
    (p : TargetPacket)
    → InWords p
    → length p.payload ≡ 8
    → Fits (8 ∷ 8 ∷ 8 ∷ 8 ∷ 8 ∷ doubles 8) (
        p.sequence
        ∷ p.source_capture_ns
        ∷ p.local_receive_ns
        ∷ p.processing_ns
        ∷ p.dispatch_ns
        ∷ map (λ x. pos x) p.payload)
numbers-Fits p w l =
    let v5 = map (λ x. pos x) p.payload in
    let v4 = p.dispatch_ns ∷ v5 in
    let v3 = p.processing_ns ∷ v4 in
    let v2 = p.local_receive_ns ∷ v3 in
    let v1 = p.source_capture_ns ∷ v2 in
    Fits-cons 8 p.sequence (8 ∷ 8 ∷ 8 ∷ 8 ∷ doubles 8) v1 w.sequence (
      Fits-cons 8 p.source_capture_ns (8 ∷ 8 ∷ 8 ∷ doubles 8) v2 w.source_capture_ns (
        Fits-cons 8 p.local_receive_ns (8 ∷ 8 ∷ doubles 8) v3 w.local_receive_ns (
          Fits-cons 8 p.processing_ns (8 ∷ doubles 8) v4 w.processing_ns (
            Fits-cons 8 p.dispatch_ns (doubles 8) v5 w.dispatch_ns
              (doubles-Fits 8 p.payload l w.payload)))))

made-Fits :
    (r : Request) (p : TargetPacket)
    → Kept r p
    → HasShape r
    → InWords p
    → Fits target_without_crc (target_values p)
unfolding target_values
made-Fits r p k h w =
    let v5 =
      p.sequence
      ∷ p.source_capture_ns
      ∷ p.local_receive_ns
      ∷ p.processing_ns
      ∷ p.dispatch_ns
      ∷ map (λ x. pos x) p.payload in
    let v4 = pos (frame_code p.frame_id) ∷ v5 in
    let v3 = p.flags ∷ v4 in
    let v2 = pos (kind_code p.kind) ∷ v3 in
    let ws = 8 ∷ 8 ∷ 8 ∷ 8 ∷ 8 ∷ doubles 8 in
    Fits-cons 4 (pos target_magic) (2 ∷ 2 ∷ 4 ∷ 4 ∷ ws) (pos wire_version ∷ v2) (omega arith) (
      Fits-cons 2 (pos wire_version) (2 ∷ 4 ∷ 4 ∷ ws) v2 (omega arith) (
        Fits-cons 2 (pos (kind_code p.kind)) (4 ∷ 4 ∷ ws) v3 (kind-fits p.kind) (
          Fits-cons 4 p.flags (4 ∷ ws) v4 (rw k.flag (flag-fits (allows_motion r))) (
            Fits-cons 4 (pos (frame_code p.frame_id)) ws v5 (frame-fits p.frame_id)
              (numbers-Fits p w (k.eight h))))))

-- If one of the packet functions returns a packet whose numbers fit 64 bits, for a pose of the right
-- shape if it is asked for a pose, then the packet's kind is the one of the function, its flags are
-- ALLOW_MOTION exactly as the caller asks, never for STOP and HOLD_CURRENT, a joint packet carries six
-- finite angles, and the packet is encoded in 124 bytes, which decode to it.
pub made_packet_lem :
    (crc32 : List ℕ → ℕ) (to_double : ℤ → Option ℕ) (r : Request) (p : TargetPacket)
    → make to_double r ≡ ok p
    → HasShape r
    → InWords p
    → Kept r p
      × ((bytes : List ℕ) × (encode_target crc32 p ≡ ok bytes)
          × (length bytes ≡ 124)
          × (decode_target crc32 bytes ≡ ok p))
made_packet_lem crc32 to_double r p h shape words =
    let k : Kept r p = subst (Promise r) h (make-Promise to_double r) in
    let (bytes, e, l, are) = encode_target-bytes crc32 p (made-Fits r p k shape words) in
    (k, (bytes, e, l, (decode_target_iff crc32 p bytes are).1 e))
