-- ===== src/Headset/Provider/Validity.antt =====
-- When the state of src/motion_input/controller_provider.py says that the controller is valid.
use embodied_hand_lab.Prelude.{
  ℕ, ◌+◌, ◌≤◌, ◌≡◌, ◌↔◌, true, false, not, ◌&&◌, Option, none, some, arith, refl, is_none, if_keeps,
  String,
}
use embodied_hand_lab.Headset.Samples.{
  ControllerPacket, ControllerProviderState, facts_valid, invalid_reason_of, missing_facts, joined,
}
use embodied_hand_lab.Headset.Provider.{
  ControllerProvider, stale_at, state_of, snapshot_at, latch_stale,
}

-- No fact is missing exactly if the facts are valid.
missing_facts_iff : (l : ControllerPacket) → is_none (joined (missing_facts l)) ≡ facts_valid l
unfolding missing_facts facts_valid
missing_facts_iff l = ground arith

-- There is a packet that is connected, active and tracked, no fault of the transport came after it,
-- and it was received at most `stale_after_ns` before now and not after now.
abbrev pub IsUsable : Option ControllerPacket → Option ℕ → Option String → ℕ → ℕ → Type 0
IsUsable (some l) (some received) none stale_after_ns now_ns =
    (l.connected ≡ true)
    × (l.active ≡ true)
    × (l.tracked ≡ true)
    × (received ≤ now_ns)
    × (now_ns ≤ received + stale_after_ns)
IsUsable _ _ _ stale_after_ns now_ns = ⊥

-- What the state says of its validity.
abbrev pub Judged : ControllerProvider → ℕ → ControllerProviderState → Type 0
Judged p now_ns s =
    ((s.controller_valid ≡ true)
      ↔ IsUsable p.latest p.host_receive_ns p.forced_invalid_reason p.stale_after_ns now_ns)
    × (is_none s.invalid_reason ≡ s.controller_valid)
    × (s.stale && s.controller_valid ≡ false)

state_of-Judged :
    (p : ControllerProvider) (now_ns : ℕ)
    → (latest : Option ControllerPacket) (received : Option ℕ) (reason : Option String)
    → p.latest ≡ latest
    → p.host_receive_ns ≡ received
    → p.forced_invalid_reason ≡ reason
    → Judged p now_ns (state_of p now_ns)
unfolding state_of stale_at facts_valid invalid_reason_of missing_facts
state_of-Judged p now_ns none received reason l r f =
    rw l ((λ h. ground arith, λ h. ground arith), ground arith, ground arith)
state_of-Judged p now_ns (some l) none reason e r f =
    rw (e, r) ((λ h. ground arith, λ h. ground arith), ground arith, ground arith)
state_of-Judged p now_ns (some l) (some received) none e r f =
    rw (e, r, f) ((λ h. ground arith, λ h. ground arith), ground arith, ground arith)
state_of-Judged p now_ns (some l) (some received) (some reason) e r f =
    rw (e, r, f) ((λ h. ground arith, λ h. ground arith), ground arith, ground arith)

-- The state that `snapshot` returns says that the controller is valid exactly if there is a packet
-- that is connected, active and tracked, no fault of the transport came after it, and it was
-- received at most `stale_after_ns` before now and not after now. It names a reason exactly if it
-- says that the controller is not valid, and it is not both stale and valid.
pub snapshot-Judged :
    (p : ControllerProvider) (now_ns : ℕ) → Judged p now_ns (snapshot_at p now_ns).1
unfolding snapshot_at latch_stale
snapshot-Judged p now_ns =
    let q : ControllerProvider = record p {
      counts = record p.counts { stale_event_count = p.counts.stale_event_count + 1 };
      stale_latched = true;
    } in
    if_keeps (λ q. Judged p now_ns (state_of q now_ns)) (stale_at p now_ns && not p.stale_latched) q
      p (state_of-Judged q now_ns p.latest p.host_receive_ns p.forced_invalid_reason refl refl refl)
      (state_of-Judged p now_ns p.latest p.host_receive_ns p.forced_invalid_reason refl refl refl)
