-- ===== src/Headset/Gate/Releases.antt =====
-- What src/motion_input/controller_provider.py holds that would end a demand for a release.
use embodied_hand_lab.Prelude.{
  ℕ, ◌≡◌, Bool, true, false, not, ◌&&◌, ◌||◌, Option, none, some, Result, ok, err, arith, refl,
  is_none, if_keeps, ◌==◌,
}
use embodied_hand_lab.Headset.Samples.{ControllerPacket, ControllerProviderState, facts_valid}
use embodied_hand_lab.Headset.Provider.{
  ControllerProvider, latch_stale, state_of, receive, receive_live, same_session, compare_sequence,
  advance, accept, counted, contains,
}
use embodied_hand_lab.Headset.Adapter.{ControllerClutchAdapter, samples_from, both_released}
use embodied_hand_lab.Headset.Datagrams.{Dispatched, controller, hand_head, malformed}

-- A packet that is connected, active and tracked, with both triggers at or below the threshold.
abbrev pub is_release : ℕ → ControllerPacket → Bool
is_release r l = facts_valid l && both_released r l

abbrev pub release_in : ℕ → Option ControllerPacket → Bool
release_in r none = false
release_in r (some l) = is_release r l

-- The provider holds such a packet, and no fault of the transport came after it.
abbrev pub usable : ℕ → ControllerProvider → Bool
usable r p = is_none p.forced_invalid_reason && release_in r p.latest

abbrev pub low_in : ℕ → Option ControllerPacket → Bool
low_in r none = false
low_in r (some l) = both_released r l

-- A state that would end the demand for a release.
abbrev pub ends : ℕ → ControllerProviderState → Bool
ends r s = s.controller_valid && low_in r s.latest

pub state_of-ends :
    (r : ℕ) (p : ControllerProvider) (now_ns : ℕ)
    → usable r p ≡ false
    → ends r (state_of p now_ns) ≡ false
unfolding state_of
state_of-ends r p now_ns h = ground arith

pub state_of_invalid :
    (p : ControllerProvider) (now_ns : ℕ)
    → is_none p.forced_invalid_reason ≡ false
    → (state_of p now_ns).controller_valid ≡ false
unfolding state_of
state_of_invalid p now_ns h = ground arith

pub usable-latch_stale :
    (r : ℕ) (p : ControllerProvider) (b : Bool) → usable r (latch_stale p b) ≡ usable r p
unfolding latch_stale
usable-latch_stale r p true = ground arith
usable-latch_stale r p false = refl

pub latch_stale_reason :
    (p : ControllerProvider) (b : Bool)
    → (latch_stale p b).forced_invalid_reason ≡ p.forced_invalid_reason
unfolding latch_stale
latch_stale_reason p b = ground arith

-- The frame of a state that does not end a demand for a release.
pub samples_from_required :
    (a : ControllerClutchAdapter) (latest : Option ControllerPacket) (received : Option ℕ)
    (valid : Bool)
    → (a.shared_release_required || not valid) ≡ true
    → (valid && low_in a.released_at latest) ≡ false
    → let t = samples_from a latest received valid in
      (t.1.shared_release_required ≡ true)
      × (t.0.shared_release_required ≡ true)
      × (t.0.released_at ≡ a.released_at)
unfolding samples_from
samples_from_required a none received valid h e = (refl, refl, refl)
samples_from_required a (some l) none valid h e = (refl, refl, refl)
samples_from_required a (some l) (some received) true h e = ground arith
samples_from_required a (some l) (some received) false h e = (refl, refl, refl)

-- What a call leaves if it returns.
abbrev pub IfOk : {E A : Type 0} → (A → Type 0) → Result E A → Type 0
IfOk P (ok a) = P a
IfOk P (err e) = Unit

-- A packet that is no release leaves nothing that would end a demand for one.
module _ (r : ℕ) (packet : ControllerPacket) (ns : ℕ) (n : is_release r packet ≡ false) where
  same_session-usable :
      (p : ControllerProvider) (latest : Option ControllerPacket)
      → usable r p ≡ false
      → IfOk (λ q. usable r q ≡ false) (same_session p latest packet ns)
  unfolding same_session compare_sequence advance accept
  same_session-usable p none u = tt
  same_session-usable p (some l) u = ground arith

  receive_live-usable :
      (p : ControllerProvider) (current : Option ℕ)
      → usable r p ≡ false
      → IfOk (λ q. usable r q ≡ false) (receive_live p current packet ns)
  unfolding receive_live accept
  receive_live-usable p none u = n
  receive_live-usable p (some s) u =
      if_keeps (IfOk (λ q. usable r q ≡ false)) (packet.session_id == s) _ _
        (same_session-usable p p.latest u) n

  pub receive-usable :
      (p : ControllerProvider)
      → usable r p ≡ false
      → IfOk (λ q. usable r q ≡ false) (receive p packet ns)
  unfolding receive
  receive-usable p u =
      if_keeps (IfOk (λ q. usable r q ≡ false)) (contains packet.session_id p.retired_sessions) _ _
        u (receive_live-usable (counted p) p.current_session u)

-- Not a CTRL packet with valid facts and both triggers at or below `r`.
abbrev pub released : {H : Type 0} → ℕ → Dispatched H → Bool
released r (controller packet) = is_release r packet
released r (hand_head packets) = false
released r malformed = false
