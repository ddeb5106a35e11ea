-- ===== src/Wire/Requests/Safety.antt =====
-- What the packet functions of src/teleoperation/wire.py promise of the packets they return.
use embodied_hand_lab.Prelude.{
  ℕ, ◌≡◌, refl, List, [], ◌∷◌, ◌++◌, Result, ok, err, arith, length, all, Bool, true, false, inl,
  inr, Option, some, none, length-append, Option-cases, ◌==◌, ==_iff, not, ◌||◌, if◌then◌else◌, ap,
  sym,
}
use embodied_hand_lab.Prelude.Int.{ℤ, pos, ltbℤ}
use embodied_hand_lab.Wire.Packets.{
  TargetKind, TargetPacket, heartbeat, hold_current, joint_position, cartesian_pose, stop,
}
use embodied_hand_lab.Wire.Requests.{
  Error, PoseTarget, pose_target_packet, joint_position_target_packet, heartbeat_target_packet,
  heartbeat_payload, heartbeat_packet, bad_sequence, bad_timestamps, bad_source_timestamp,
  bad_joints, not_finite, standing_packet, stop_target_packet, hold_current_target_packet,
  is_finite_double, motion_flag, frame_named, ordered,
}

-- A call of one of the functions, with its arguments in their order.
pub data Request : Type 0 where
  pose_request : PoseTarget → Bool → Request
  joint_request : ℤ → List ℕ → ℤ → ℤ → ℤ → ℤ → Bool → Request
  heartbeat_request : ℤ → ℤ → ℤ → ℤ → ℤ → ℤ → ℤ → Bool → Request
  stop_request hold_request : ℤ → ℤ → Request

unfoldable pub make : (ℤ → Option ℕ) → Request → Result Error TargetPacket
make to_double (pose_request target allow) = pose_target_packet target allow
make to_double (joint_request n joints receive processing dispatch capture allow) =
    joint_position_target_packet n joints receive processing dispatch capture allow
make to_double (heartbeat_request n input receive processing dispatch last code allow) =
    heartbeat_target_packet to_double n input receive processing dispatch last code allow
make to_double (stop_request n ns) = stop_target_packet n ns
make to_double (hold_request n ns) = hold_current_target_packet n ns

-- The kind that a function makes, and whether the caller allows motion.
abbrev pub asked_kind : Request → TargetKind
asked_kind (pose_request target allow) = cartesian_pose
asked_kind (joint_request n joints receive processing dispatch capture allow) = joint_position
asked_kind (heartbeat_request n input receive processing dispatch last code allow) = heartbeat
asked_kind (stop_request n ns) = stop
asked_kind (hold_request n ns) = hold_current

abbrev pub allows_motion : Request → Bool
allows_motion (pose_request target allow) = allow
allows_motion (joint_request n joints receive processing dispatch capture allow) = allow
allows_motion (heartbeat_request n input receive processing dispatch last code allow) = allow
allows_motion (stop_request n ns) = false
allows_motion (hold_request n ns) = false

-- A pose has three coordinates and a quaternion, as `Pose3D` demands.
abbrev pub HasShape : Request → Type 0
HasShape (pose_request target allow) =
    (length target.position_m ≡ 3) × (length target.quaternion_xyzw ≡ 4)
HasShape _ = Unit

-- What is promised of a packet.
pub record Kept (r : Request) (p : TargetPacket) : Type 0 where
  pub same_kind : p.kind ≡ asked_kind r
  pub flag : p.flags ≡ motion_flag (allows_motion r)
  pub eight : HasShape r → length p.payload ≡ 8
  pub joints :
      p.kind ≡ joint_position
      → (angles : List ℕ) × (length angles ≡ 6)
        × (all is_finite_double angles ≡ true)
        × (p.payload ≡ angles ++ 0 ∷ 0 ∷ [])

-- The promise, if a packet is returned.
abbrev pub Promise : Request → Result Error TargetPacket → Type 0
Promise r (ok p) = Kept r p
Promise r (err e) = Unit

-- A promise holds behind a test that raises.
Promise-if :
    (r : Request) (b : Bool) (e : Error) (x : Result Error TargetPacket)
    → (b ≡ false → Promise r x)
    → Promise r (if b then err e else x)
Promise-if r true e x h = tt
Promise-if r false e x h = h refl

not-true : (b : Bool) → not b ≡ false → b ≡ true
not-true true h = refl
not-true false h = absurd cc

pose-Promise :
    (target : PoseTarget) (allow : Bool)
    → Promise (pose_request target allow) (pose_target_packet target allow)
unfolding pose_target_packet
pose-Promise target allow = elim (Option-cases (frame_named target.target_frame_id)) [
  | inl e ↦ rw (pose_target_packet, e) tt
  | inr (frame, e) ↦
      rw (pose_target_packet, e)
        (record {
          same_kind = refl;
          flag = refl;
          eight = λ h. omega (
            arith,
            h,
            length-append target.position_m (target.quaternion_xyzw ++ 0 ∷ []),
            length-append target.quaternion_xyzw (0 ∷ []),
          );
          joints = λ k. absurd cc;
        })
]

joint-Promise :
    (n : ℤ) (joints : List ℕ) (receive processing dispatch capture : ℤ) (allow : Bool)
    → Promise
        (joint_request n joints receive processing dispatch capture allow)
        (joint_position_target_packet n joints receive processing dispatch capture allow)
unfolding joint_position_target_packet
joint-Promise n joints receive processing dispatch capture allow =
    let r = joint_request n joints receive processing dispatch capture allow in
    Promise-if r (ltbℤ n (pos 0)) bad_sequence _ (λ _.
      Promise-if r (not (ordered receive processing dispatch)) bad_timestamps _ (λ _.
        Promise-if r (ltbℤ capture (pos 0)) bad_source_timestamp _ (λ _.
          Promise-if r (not (length joints == 6)) bad_joints _ (λ s.
            Promise-if r (not (all is_finite_double joints)) not_finite _ (λ f.
              let six : length joints ≡ 6 =
                (==_iff (length joints) 6).0 (not-true (length joints == 6) s) in
              record {
                same_kind = refl;
                flag = refl;
                eight = λ _. omega (arith, six, length-append joints (0 ∷ 0 ∷ []));
                joints = λ _. (joints, six, not-true (all is_finite_double joints) f, refl);
              })))))

standing-Promise :
    (r : Request) (n ns : ℤ)
    → allows_motion r ≡ false
    → (asked_kind r ≡ joint_position → ⊥)
    → Promise r (standing_packet (asked_kind r) n ns)
unfolding standing_packet
standing-Promise r n ns a k = Promise-if r (ltbℤ n (pos 0) || ltbℤ ns (pos 0)) bad_sequence _ (λ _.
    record {
      same_kind = refl;
      flag = ap motion_flag (sym a);
      eight = λ _. refl;
      joints = λ e. absurd (k e);
    })

payload-Promise :
    (n input receive processing dispatch last code : ℤ) (allow : Bool) (a b c : Option ℕ)
    → Promise
        (heartbeat_request n input receive processing dispatch last code allow)
        (heartbeat_packet n receive processing dispatch allow (heartbeat_payload a b c))
unfolding heartbeat_packet heartbeat_payload
payload-Promise n input receive processing dispatch last code allow none b c = tt
payload-Promise n input receive processing dispatch last code allow (some a) none c = tt
payload-Promise n input receive processing dispatch last code allow (some a) (some b) none = tt
payload-Promise n input receive processing dispatch last code allow (some a) (some b) (some c) =
    record { same_kind = refl; flag = refl; eight = λ _. refl; joints = λ e. absurd cc }

heartbeat-Promise :
    (to_double : ℤ → Option ℕ) (n input receive processing dispatch last code : ℤ) (allow : Bool)
    → Promise
        (heartbeat_request n input receive processing dispatch last code allow)
        (heartbeat_target_packet to_double n input receive processing dispatch last code allow)
unfolding heartbeat_target_packet
heartbeat-Promise to_double n input receive processing dispatch last code allow =
    let r = heartbeat_request n input receive processing dispatch last code allow in
    Promise-if r (ltbℤ n (pos 0) || (ltbℤ input (pos 0) || ltbℤ last (pos 0))) bad_sequence _ (λ _.
      Promise-if r (not (ordered receive processing dispatch)) bad_timestamps _ (λ _.
        payload-Promise n input receive processing dispatch last code allow (to_double input)
          (to_double last) (to_double code)))

pub make-Promise : (to_double : ℤ → Option ℕ) (r : Request) → Promise r (make to_double r)
unfolding make stop_target_packet hold_current_target_packet
make-Promise to_double (pose_request target allow) = pose-Promise target allow
make-Promise to_double (joint_request n joints receive processing dispatch capture allow) =
    joint-Promise n joints receive processing dispatch capture allow
make-Promise to_double (heartbeat_request n input receive processing dispatch last code allow) =
    heartbeat-Promise to_double n input receive processing dispatch last code allow
make-Promise to_double (stop_request n ns) =
    standing-Promise (stop_request n ns) n ns refl (λ e. cc)
make-Promise to_double (hold_request n ns) =
    standing-Promise (hold_request n ns) n ns refl (λ e. cc)
