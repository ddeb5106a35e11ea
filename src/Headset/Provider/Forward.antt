-- ===== src/Headset/Provider/Forward.antt =====
-- What handling one packet does to the packets that src/motion_input/controller_provider.py took before.
use embodied_hand_lab.Prelude.{
  ℕ, ◌<◌, ◌≡◌, Bool, true, false, ◌&&◌, ◌||◌, Option, none, some, List, Result, ok, err, arith,
  refl, inl, inr, Bool-cases, ◌==◌, ==_iff, ap, sym, ◌∙◌, ◌>>=◌, leb,
}
use embodied_hand_lab.Prelude.Int.{ℤ, pos, negsuc}
use embodied_hand_lab.Headset.Samples.{ControllerPacket, Error}
use embodied_hand_lab.Headset.Provider.{
  ControllerProvider, accept, advance, compare_sequence, same_session, receive_live, receive,
  counted, contains, latch_stale, snapshot_at, update_at, update, update_call, apply, kept,
  stale_at,
}
use embodied_hand_lab.Headset.Provider.Invariant.{IsValid, Returns}

-- `b` is not of the session of `a`, or ahead of it.
abbrev pub Later : ControllerPacket → ControllerPacket → Type 0
Later a b = a.session_id ≡ b.session_id → a.sequence_number < b.sequence_number

-- The session of `a` is over, or `a` is not ahead of the latest packet of it.
abbrev covers : ControllerPacket → Option ControllerPacket → Bool
covers a none = false
covers a (some l) = (l.session_id == a.session_id) && leb a.sequence_number l.sequence_number

abbrev pub Passed : ControllerPacket → ControllerProvider → Type 0
Passed a p = (contains a.session_id p.retired_sessions || covers a p.latest) ≡ true

-- What handling `packet` does for a packet that was passed before, and for itself.
abbrev pub Forward :
    ControllerPacket → ControllerPacket → ControllerProvider → ControllerProvider → Type 0
Forward a packet p q =
    (Passed a p → Passed a q)
    × (Passed a p → p.counts.accepted_count < q.counts.accepted_count → Later a packet)
    × (p.counts.accepted_count < q.counts.accepted_count → Passed packet q)

contains_cong : (a b : ℕ) (xs : List ℕ) → a ≡ b → contains a xs ≡ contains b xs
contains_cong a b xs e = ap (λ t. contains t xs) e

module _ (a packet : ControllerPacket) (p : ControllerProvider) (ns : ℕ) (v : IsValid 1 p) where
  module _ (last : ControllerPacket) (l : p.latest ≡ some last)
      (s : packet.session_id ≡ last.session_id) where
    compare_sequence-Forward :
        contains packet.session_id p.retired_sessions ≡ false
        → Forward a packet p (compare_sequence p last packet ns)
    unfolding compare_sequence advance accept
    compare_sequence-Forward n =
        let same = contains_cong a.session_id packet.session_id p.retired_sessions in
        (
          λ h. let h' = rw l at h in ground arith,
          λ h k e. let h' = rw l at h in ground arith,
          λ k. ground arith,
        )

  same_session-Forward :
      (latest : Option ControllerPacket)
      → p.latest ≡ latest
      → p.current_session ≡ some packet.session_id
      → contains packet.session_id p.retired_sessions ≡ false
      → Returns (Forward a packet p) (same_session p latest packet ns)
  unfolding same_session
  same_session-Forward none l c n = cc (v.session)
  same_session-Forward (some last) l c n =
      compare_sequence-Forward last l (ground (arith, v.session)) n

  receive_live-Forward :
      (latest : Option ControllerPacket)
      → p.latest ≡ latest
      → (current : Option ℕ) → p.current_session ≡ current
      → contains packet.session_id p.retired_sessions ≡ false
      → Returns (Forward a packet p) (receive_live p current packet ns)
  unfolding receive_live accept
  receive_live-Forward none l none c n =
      let same = contains_cong a.session_id packet.session_id p.retired_sessions in
      (
        λ h. let h' = rw l at h in ground arith,
        λ h k e. let h' = rw l at h in ground arith,
        λ k. ground arith,
      )
  receive_live-Forward (some last) l none c n = cc (v.session)
  receive_live-Forward none l (some s) c n = cc (v.session)
  receive_live-Forward (some last) l (some s) c n =
      let same = contains_cong a.session_id packet.session_id p.retired_sessions in
      elim (Bool-cases (packet.session_id == s)) [
        | inl e ↦ rw e (
            same_session-Forward p.latest refl
              (c ∙ ap some (sym ((==_iff packet.session_id s).0 e))) n)
        | inr e ↦
            let current : last.session_id ≡ s = ground (arith, v.session) in
            rw e (
              λ h. let h' = rw l at h in ground arith,
              λ h k d. let h' = rw l at h in ground arith,
              λ k. ground arith,
            )
      ]

receive-Forward :
    (a packet : ControllerPacket) (p : ControllerProvider) (ns : ℕ)
    → IsValid 0 p
    → Returns (Forward a packet p) (receive p packet ns)
unfolding receive
receive-Forward a packet p ns v =
    elim (Bool-cases (contains packet.session_id p.retired_sessions)) [
      | inl e ↦ rw e (λ h. h, λ h k d. absurd (omega arith), λ k. absurd (omega arith))
      | inr e ↦ rw e (
          receive_live-Forward a packet (counted p) ns
            (record {
              session = v.session;
              received = v.received;
              live = v.live;
              accounts = ground arith;
            })
            p.latest refl p.current_session refl e)
    ]

-- `Forward` speaks of fields that a snapshot does not change.
pub latch_stale_same :
    (p : ControllerProvider) (b : Bool)
    → ((latch_stale p b).latest ≡ p.latest)
      × ((latch_stale p b).retired_sessions ≡ p.retired_sessions)
      × ((latch_stale p b).counts.accepted_count ≡ p.counts.accepted_count)
unfolding latch_stale
latch_stale_same p b = (ground arith, ground arith, ground arith)

pub Passed-same :
    (a : ControllerPacket) (p q : ControllerProvider)
    → q.latest ≡ p.latest
    → q.retired_sessions ≡ p.retired_sessions
    → Passed a p
    → Passed a q
Passed-same a p q l r h = rw (l, r) h

latch_stale-Forward :
    (a packet : ControllerPacket) (p q : ControllerProvider) (b : Bool)
    → Forward a packet p q
    → Forward a packet p (latch_stale q b)
latch_stale-Forward a packet p q b (f, g, k) =
    let (l, r, c) = latch_stale_same q b in
    (
      λ h. Passed-same a q (latch_stale q b) l r (f h),
      λ h m. g h (omega arith),
      λ m. Passed-same packet q (latch_stale q b) l r (k (omega arith)),
    )

update_kept-Forward :
    (a packet : ControllerPacket) (p : ControllerProvider) (ns : ℕ)
    → (r : Result Error ControllerProvider) → Returns (Forward a packet p) r
    → Forward a packet p (kept p (r >>= λ q. ok (snapshot_at q ns)))
unfolding snapshot_at
update_kept-Forward a packet p ns (ok q) f = latch_stale-Forward a packet p q (stale_at q ns) f
update_kept-Forward a packet p ns (err e) f = absurd f

pub apply_update-Forward :
    (a packet : ControllerPacket) (p : ControllerProvider) (ns : ℤ)
    → IsValid 0 p
    → Forward a packet p (apply p (update_call packet ns))
unfolding apply update update_at
apply_update-Forward a packet p (pos ns) v =
    update_kept-Forward a packet p ns (receive p packet ns) (receive-Forward a packet p ns v)
apply_update-Forward a packet p (negsuc ns) v =
    (λ h. h, λ h k d. absurd (omega arith), λ k. absurd (omega arith))
