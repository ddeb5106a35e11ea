-- ===== src/Wire/Packets/Values.antt =====
-- How the values of a datagram of src/teleoperation/wire.py and the fields of a packet correspond.
use embodied_hand_lab.Prelude.{
  ℕ, zero, suc, ◌-◌, ◌%◌, ◌^◌, ◌<◌, ◌≡◌, ◌∙◌, ap, sym, refl, List, [], ◌∷◌, ◌++◌, map, Result, ok,
  err, arith, length, take, drop, true, take-append, Option, some, none, length-drop,
  drop-append_le, get_or, get_or-append, ◌==◌, ==_iff,
}
use embodied_hand_lab.Prelude.Int.{ℤ, pos, pos_part}
use embodied_hand_lab.Wire.Layout.{unpack}
use embodied_hand_lab.Wire.Packets.{
  TargetKind, FrameId, TargetPacket, Error, kind_code, kind_of, frame_code, frame_of, target_magic,
  wire_version, made, target_values, target_without_crc, packet_of, decode_values,
}

pub kind_of-kind_code : (k : TargetKind) → kind_of (kind_code k) ≡ some k
unfolding kind_of
kind_of-kind_code TargetKind.heartbeat = refl
kind_of-kind_code TargetKind.hold_current = refl
kind_of-kind_code TargetKind.joint_position = refl
kind_of-kind_code TargetKind.cartesian_pose = refl
kind_of-kind_code TargetKind.stop = refl

frame_of-frame_code : (f : FrameId) → frame_of (frame_code f) ≡ some f
unfolding frame_of
frame_of-frame_code FrameId.no_frame = refl
frame_of-frame_code FrameId.robot_base = refl
frame_of-frame_code FrameId.startup_tcp_relative = refl

pub kind_code-kind_of : (n : ℕ) (k : TargetKind) → kind_of n ≡ some k → kind_code k ≡ n
unfolding kind_of
kind_code-kind_of n k h = ground arith

pub frame_code-frame_of : (n : ℕ) (f : FrameId) → frame_of n ≡ some f → frame_code f ≡ n
unfolding frame_of
frame_code-frame_of n f h = ground arith

pos-get_or : (u : List ℕ) (i : ℕ) → pos (get_or u i 0) ≡ get_or (map (λ n. pos n) u) i (pos 0)
pos-get_or [] i = refl
pos-get_or (x ∷ u) zero = refl
pos-get_or (x ∷ u) (suc i) = pos-get_or u i

drop-map : (n : ℕ) (u : List ℕ) → drop n (map (λ n. pos n) u) ≡ map (λ n. pos n) (drop n u)
drop-map zero u = refl
drop-map (suc n) [] = refl
drop-map (suc n) (x ∷ u) = drop-map n u

map-pos_part : (u : List ℕ) → map pos_part (map (λ n. pos n) u) ≡ u
map-pos_part [] = refl
map-pos_part (x ∷ u) = ap (λ t. x ∷ t) (map-pos_part u)

packet_of_lem :
    (p : TargetPacket) (flags : ℤ) (numbers payload : List ℕ)
    → flags ≡ p.flags
    → pos (get_or numbers 5 0) ≡ p.sequence
    → pos (get_or numbers 6 0) ≡ p.source_capture_ns
    → pos (get_or numbers 7 0) ≡ p.local_receive_ns
    → pos (get_or numbers 8 0) ≡ p.processing_ns
    → pos (get_or numbers 9 0) ≡ p.dispatch_ns
    → payload ≡ p.payload
    → packet_of (some p.kind) (some p.frame_id) flags numbers payload ≡ ok p
packet_of_lem p flags numbers payload e1 e2 e3 e4 e5 e6 e7 =
    rw e1 (rw e2 (rw e3 (rw e4 (rw e5 (rw e6 (rw e7 refl))))))

pub get_or_last : (u : List ℕ) (n i : ℕ) → length u ≡ i → get_or (u ++ n ∷ []) i 0 ≡ n
get_or_last [] n i l = rw (sym l) refl
get_or_last (x ∷ u) n zero l = absurd (omega (arith, l))
get_or_last (x ∷ u) n (suc i) l = get_or_last u n i (omega (arith, l))

payload_lem :
    (u payload : List ℕ) (n : ℕ)
    → length u ≡ 18
    → map (λ n. pos n) (drop 10 u) ≡ map (λ n. pos n) payload
    → take 8 (drop 10 (u ++ n ∷ [])) ≡ payload
payload_lem u payload n l k =
    let eight : length (drop 10 u) ≡ 8 = omega (arith, l, length-drop 10 u) in
    let same : drop 10 u ≡ payload =
      sym (map-pos_part (drop 10 u)) ∙ ap (λ t. map pos_part t) k ∙ map-pos_part payload in
    ap (λ t. take 8 t) (drop-append_le 10 u (n ∷ []) (omega (arith, l)))
    ∙ ap (λ i. take i (drop 10 u ++ n ∷ [])) (sym eight)
    ∙ take-append (drop 10 u) (n ∷ [])
    ∙ same

-- The values of a packet, and a checksum behind them.
pub decode_lem :
    (crc32 : List ℕ → ℕ) (u bytes : List ℕ) (n : ℕ) (p : TargetPacket)
    → map (λ n. pos n) u ≡ target_values p
    → length u ≡ 18
    → crc32 (take (length bytes - 4) bytes) % 2 ^ 32 ≡ n
    → decode_values crc32 (u ++ n ∷ []) bytes ≡ ok p
unfolding decode_values target_values
decode_lem crc32 u bytes n p k l e =
    let values = u ++ n ∷ [] in
    let at : (i : ℕ) → i < 18 → pos (get_or values i 0) ≡ get_or (target_values p) i (pos 0) =
      λ i h.
        ap (λ m. pos m) (get_or-append u (n ∷ []) i 0 (omega (arith, l, h)))
        ∙ pos-get_or u i
        ∙ ap (λ t. get_or t i (pos 0)) k in
    let m0 : get_or values 0 0 ≡ target_magic = ap pos_part (at 0 (omega arith)) in
    let m1 : get_or values 1 0 ≡ wire_version = ap pos_part (at 1 (omega arith)) in
    let m2 : get_or values 2 0 ≡ kind_code p.kind = ap pos_part (at 2 (omega arith)) in
    let m4 : get_or values 4 0 ≡ frame_code p.frame_id = ap pos_part (at 4 (omega arith)) in
    let m18 : (crc32 (take (length bytes - 4) bytes) % 2 ^ 32 == get_or values 18 0) ≡ true =
      (==_iff (crc32 (take (length bytes - 4) bytes) % 2 ^ 32) (get_or values 18 0)).1
        (e ∙ sym (get_or_last u n 18 l)) in
    rw m0 (
      rw m1 (
        rw m18 (
          rw m2 (
            rw m4 (
              rw (kind_of-kind_code p.kind) (
                rw (frame_of-frame_code p.frame_id) (
                  packet_of_lem p (pos (get_or values 3 0)) values (take 8 (drop 10 values))
                    (at 3 (omega arith)) (at 5 (omega arith)) (at 6 (omega arith))
                    (at 7 (omega arith)) (at 8 (omega arith)) (at 9 (omega arith))
                    (payload_lem u p.payload n l
                      (sym (drop-map 10 u) ∙ ap (λ t. drop 10 t) k)))))))))

packet_in : TargetPacket → Result Error TargetPacket → TargetPacket
packet_in p (ok q) = q
packet_in p (err e) = p

ok_injective : (p q : TargetPacket) → ◌≡◌ {A = Result Error TargetPacket} (ok p) (ok q) → p ≡ q
unfolding packet_in
ok_injective p q h = ap (packet_in p) h

pub packet_of_parts :
    (ko : Option TargetKind) (fo : Option FrameId) (flags : ℤ) (numbers payload : List ℕ)
    (p : TargetPacket)
    → packet_of ko fo flags numbers payload ≡ ok p
    → (kind : TargetKind) × (frame : FrameId) × (ko ≡ some kind)
      × (fo ≡ some frame)
      × (made kind frame flags numbers payload ≡ p)
packet_of_parts none fo flags numbers payload p h = absurd cc
packet_of_parts (some k) none flags numbers payload p h = absurd cc
packet_of_parts (some k) (some f) flags numbers payload p h =
    (k, f, refl, refl, ok_injective (made k f flags numbers payload) p h)

-- The values that `decode_target` reads, one by one.
abbrev pub spelled : List ℕ → List ℤ
spelled values =
    pos (get_or values 0 0)
    ∷ pos (get_or values 1 0)
    ∷ pos (get_or values 2 0)
    ∷ pos (get_or values 3 0)
    ∷ pos (get_or values 4 0)
    ∷ pos (get_or values 5 0)
    ∷ pos (get_or values 6 0)
    ∷ pos (get_or values 7 0)
    ∷ pos (get_or values 8 0)
    ∷ pos (get_or values 9 0)
    ∷ map (λ n. pos n) (take 8 (drop 10 values))

pub spelled-unpack :
    (body : List ℕ) (n : ℕ)
    → spelled (unpack target_without_crc body ++ n ∷ [])
      ≡ map (λ n. pos n) (unpack target_without_crc body)
unfolding unpack
spelled-unpack body n = refl

-- The values from which a packet was made are its values.
pub values_lem :
    (values : List ℕ) (kind : TargetKind) (frame : FrameId) (p : TargetPacket)
    → get_or values 0 0 ≡ target_magic
    → get_or values 1 0 ≡ wire_version
    → kind_code kind ≡ get_or values 2 0
    → frame_code frame ≡ get_or values 4 0
    → made kind frame (pos (get_or values 3 0)) values (take 8 (drop 10 values)) ≡ p
    → target_values p ≡ spelled values
unfolding target_values
values_lem values kind frame p m0 m1 m2 m4 h = rw (sym h) (rw m0 (rw m1 (rw m2 (rw m4 refl))))

pub decode_parts :
    (crc32 : List ℕ → ℕ) (values bytes : List ℕ) (p : TargetPacket)
    → decode_values crc32 values bytes ≡ ok p
    → (get_or values 0 0 ≡ target_magic)
      × (get_or values 1 0 ≡ wire_version)
      × (crc32 (take (length bytes - 4) bytes) % 2 ^ 32 ≡ get_or values 18 0)
      × (packet_of
            (kind_of (get_or values 2 0))
            (frame_of (get_or values 4 0))
            (pos (get_or values 3 0))
            values
            (take 8 (drop 10 values))
          ≡ ok p)
unfolding decode_values
decode_parts crc32 values bytes p h = ground arith
