-- ===== src/Headset/Provider/Sessions.antt =====
-- src/motion_input/controller_provider.py never takes a packet twice: sessions that are over stay
-- so, and within a session the sequence numbers ascend.
use embodied_hand_lab.Prelude.{
  List, [], ◌∷◌, ◌++◌, inl, inr, Bool-cases, ltb, if◌then◌else◌, All, ltb→lt, if_keeps,
}
use embodied_hand_lab.Prelude.Int.{pos, negsuc}
use embodied_hand_lab.Headset.Samples.{ControllerPacket}
use embodied_hand_lab.Headset.Provider.{
  ControllerProvider, new, latch_stale, snapshot_at, snapshot, invalidate, Call, update_call,
  snapshot_call, invalidate_call, apply, kept_invalid, stale_at, is_blank,
}
use embodied_hand_lab.Headset.Provider.Invariant.{IsValid, apply-IsValid}
use embodied_hand_lab.Headset.Provider.Forward.{
  Later, Passed, latch_stale_same, Passed-same, apply_update-Forward,
}

-- The packet, if the call accepts one.
abbrev pub accepted_of : ControllerProvider → Call → List ControllerPacket
accepted_of p (update_call packet ns) =
    if ltb p.counts.accepted_count (apply p (update_call packet ns)).counts.accepted_count
    then packet ∷ []
    else []
accepted_of p (snapshot_call ns) = []
accepted_of p (invalidate_call reason) = []

-- The packets that are accepted over the calls, in order.
pub accepted_packets : ControllerProvider → List Call → List ControllerPacket
accepted_packets p [] = []
accepted_packets p (x ∷ xs) = accepted_of p x ++ accepted_packets (apply p x) xs

-- Each packet is followed by later ones only.
abbrev pub NeverAgain : List ControllerPacket → Type 0
NeverAgain [] = Unit
NeverAgain (a ∷ rest) = All (Later a) rest × NeverAgain rest

-- A call keeps a packet passed, and accepts only later ones.
apply-Passed :
    (a : ControllerPacket) (p : ControllerProvider) (x : Call)
    → IsValid 0 p
    → Passed a p
    → Passed a (apply p x) × All (Later a) (accepted_of p x)
unfolding apply snapshot snapshot_at invalidate
apply-Passed a p (update_call packet ns) v h =
    let (f, g, k) = apply_update-Forward a packet p ns v in
    (
      f h,
      elim (Bool-cases
          (ltb p.counts.accepted_count (apply p (update_call packet ns)).counts.accepted_count)) [
            | inl e ↦ rw e (g h (ltb→lt _ _ e), tt)
            | inr e ↦ rw e tt
          ],
    )
apply-Passed a p (snapshot_call (pos ns)) v h =
    let (l, r, c) = latch_stale_same p (stale_at p ns) in
    (Passed-same a p (latch_stale p (stale_at p ns)) l r h, tt)
apply-Passed a p (snapshot_call (negsuc ns)) v h = (h, tt)
apply-Passed a p (invalidate_call reason) v h =
    (if_keeps (λ r. Passed a (kept_invalid p r)) (is_blank reason) _ _ h h, tt)

accepted-Passed :
    (p : ControllerProvider) (x : Call)
    → IsValid 0 p
    → All (λ b. Passed b (apply p x)) (accepted_of p x)
accepted-Passed p (update_call packet ns) v =
    let (f, g, k) = apply_update-Forward packet packet p ns v in
    elim (Bool-cases
      (ltb p.counts.accepted_count (apply p (update_call packet ns)).counts.accepted_count)) [
        | inl e ↦ rw e (k (ltb→lt _ _ e), tt)
        | inr e ↦ rw e tt
      ]
accepted-Passed p (snapshot_call ns) v = tt
accepted-Passed p (invalidate_call reason) v = tt

All-append {ℓ κ} :
    {A : Type ℓ} (P : A → Type κ) (xs ys : List A) → All P xs → All P ys → All P (xs ++ ys)
All-append P [] ys h k = k
All-append P (x ∷ xs) ys h k = (h.0, All-append P xs ys h.1 k)

-- A packet that was passed is followed by later packets only.
after-Passed :
    (a : ControllerPacket) (p : ControllerProvider) (xs : List Call)
    → IsValid 0 p
    → Passed a p
    → All (Later a) (accepted_packets p xs)
unfolding accepted_packets
after-Passed a p [] v h = tt
after-Passed a p (x ∷ xs) v h =
    let (f, g) = apply-Passed a p x v h in
    All-append (Later a) (accepted_of p x) _ g
      (after-Passed a (apply p x) xs (apply-IsValid p x v) f)

NeverAgain-append :
    (new rest : List ControllerPacket)
    → NeverAgain new
    → All (λ a. All (Later a) rest) new
    → NeverAgain rest
    → NeverAgain (new ++ rest)
NeverAgain-append [] rest n h k = k
NeverAgain-append (a ∷ new) rest n h k =
    (All-append (Later a) new rest n.0 h.0, NeverAgain-append new rest n.1 h.1 k)

-- A call accepts at most one packet.
accepted_of-NeverAgain : (p : ControllerProvider) (x : Call) → NeverAgain (accepted_of p x)
accepted_of-NeverAgain p (update_call packet ns) =
    if_keeps NeverAgain
      (ltb p.counts.accepted_count (apply p (update_call packet ns)).counts.accepted_count)
      (packet ∷ []) [] (tt, tt) tt
accepted_of-NeverAgain p (snapshot_call ns) = tt
accepted_of-NeverAgain p (invalidate_call reason) = tt

All-map {ℓ κ μ} :
    {A : Type ℓ} {P : A → Type κ} {Q : A → Type μ} (f : (a : A) → P a → Q a) (xs : List A)
    → All P xs
    → All Q xs
All-map f [] h = tt
All-map f (x ∷ xs) h = (f x h.0, All-map f xs h.1)

-- Over any calls of a valid provider, whatever they raise, each accepted packet is followed by
-- accepted packets of other sessions and by ones of its own session with a higher sequence number,
-- and by no others: no packet is taken twice, and a session that another one has replaced does not
-- come back with an old packet.
pub accepted-NeverAgain :
    (p : ControllerProvider) (xs : List Call) → IsValid 0 p → NeverAgain (accepted_packets p xs)
unfolding accepted_packets
accepted-NeverAgain p [] v = tt
accepted-NeverAgain p (x ∷ xs) v =
    let v' = apply-IsValid p x v in
    NeverAgain-append (accepted_of p x) (accepted_packets (apply p x) xs)
      (accepted_of-NeverAgain p x)
      (All-map (λ a h. after-Passed a (apply p x) xs v' h) (accepted_of p x)
        (accepted-Passed p x v))
      (accepted-NeverAgain (apply p x) xs v')
