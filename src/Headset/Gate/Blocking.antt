-- ===== src/Headset/Gate/Blocking.antt =====
-- A gate of src/motion_input/transport_gate.py that demands a release, event by event.
use embodied_hand_lab.Prelude.{
  ℕ, ◌+◌, ◌≡◌, true, false, not, ◌||◌, Option, none, some, Result, ok, err, ◌>>=◌, arith, refl,
  is_none, ap, ◌∙◌, if_keeps, Bool-cases, inl, inr,
}
use embodied_hand_lab.Headset.Samples.{ControllerPacket, ControllerProviderState, Error}
use embodied_hand_lab.Headset.Provider.{
  ControllerProvider, invalidate, snapshot_at, latch_stale, state_of, update_at, kept_invalid,
  receive, stale_at,
}
use embodied_hand_lab.Headset.Adapter.{samples, samples_from}
use embodied_hand_lab.Headset.Monitor
use embodied_hand_lab.Headset.Monitor.{update_invalid, update-IsValid}
use embodied_hand_lab.Headset.Datagrams.{
  HandHead, Datagram, Dispatched, controller, hand_head, malformed, is_ctrl, seen, controller_kind,
  GateIngestResult,
}
use embodied_hand_lab.Headset.Gate.{
  QuestTransportGate, update_clutches, update_now, ingest_malformed, ingest_controller,
  ingest_hand_head, finish_hand_head, dispatch, Event, ingest_event, poll_event, kept,
}
use embodied_hand_lab.Headset.Gate.Releases.{
  is_release, usable, ends, state_of-ends, state_of_invalid, usable-latch_stale, latch_stale_reason,
  samples_from_required, IfOk, receive-usable, released,
}

module _ (h : HandHead) where
  -- A release is demanded, no channel is engaged, and the provider holds nothing that would end the
  -- demand.
  pub record Blocked (r : ℕ) (g : QuestTransportGate h) : Type 0 where
    pub required : g.adapter.shared_release_required ≡ true
    pub threshold : g.adapter.released_at ≡ r
    pub arm_off : g.last_clutch.arm_engaged ≡ false
    pub hand_off : g.last_clutch.hand_engaged ≡ false
    pub waiting : usable r g.provider ≡ false
    pub monitor : Monitor.IsValid g.clutches

  update_clutches-Blocked :
      (g : QuestTransportGate h) (now_ns : ℕ) (s : ControllerProviderState)
      → (g.adapter.shared_release_required || not s.controller_valid) ≡ true
      → ends g.adapter.released_at s ≡ false
      → usable g.adapter.released_at g.provider ≡ false
      → Monitor.IsValid g.clutches
      → Blocked g.adapter.released_at (update_clutches h g now_ns s)
  unfolding update_clutches samples
  update_clutches-Blocked g now_ns s q e u v =
      let (f, a, t) =
        samples_from_required g.adapter s.latest s.host_receive_monotonic_ns s.controller_valid q
          e in
      let frame =
        (samples_from g.adapter s.latest s.host_receive_monotonic_ns s.controller_valid).1 in
      let (x, y) = update_invalid g.clutches frame now_ns g.provider.stale_after_ns v f in
      record {
        required = a;
        threshold = t;
        arm_off = x;
        hand_off = y;
        waiting = u;
        monitor = update-IsValid g.clutches frame now_ns g.provider.stale_after_ns v;
      }

  pub update_now-Blocked :
      (g : QuestTransportGate h) (now_ns : ℕ)
      → (g.adapter.shared_release_required || not (is_none g.provider.forced_invalid_reason)) ≡ true
      → usable g.adapter.released_at g.provider ≡ false
      → Monitor.IsValid g.clutches
      → Blocked g.adapter.released_at (update_now h g now_ns)
  unfolding update_now snapshot_at
  update_now-Blocked g now_ns q u v =
      let b = stale_at g.provider now_ns in
      let p = latch_stale g.provider b in
      let u' = usable-latch_stale g.adapter.released_at g.provider b ∙ u in
      update_clutches-Blocked (record g { provider = p }) now_ns (state_of p now_ns)
        (ground (arith, state_of_invalid p now_ns, latch_stale_reason g.provider b))
        (state_of-ends g.adapter.released_at p now_ns u') u' v

module _ (h : HandHead) where
  abbrev pub NotRelease : ℕ → Event h → Type 0
  NotRelease r (ingest_event d) = released r (h.parse d.payload) ≡ false
  NotRelease r (poll_event now_ns) = Unit

  ingest_controller-Blocked :
      (g : QuestTransportGate h) (packet : ControllerPacket) (ns : ℕ)
      → is_release g.adapter.released_at packet ≡ false
      → Blocked h g.adapter.released_at g
      → Blocked h g.adapter.released_at (kept h g (ingest_controller h g packet ns))
  unfolding ingest_controller update_at snapshot_at
  ingest_controller-Blocked g packet ns n b =
      from_result (receive g.provider packet ns)
        (receive-usable g.adapter.released_at packet ns n g.provider b.waiting)
    where
      from_result :
          (p : Result Error ControllerProvider)
          → IfOk (λ q. usable g.adapter.released_at q ≡ false) p
          → Blocked h g.adapter.released_at (
              kept h g (
                (p >>= λ q. ok (snapshot_at q ns)) >>= λ t. ok (
                  update_clutches h
                      (record g { provider = t.0; ctrl_times = seen g.ctrl_times ns })
                      ns
                      t.1,
                  record { kind = controller_kind; accepted = true },
                )))
      from_result (ok q) u =
          let q' = latch_stale q (stale_at q ns) in
          let u' = usable-latch_stale g.adapter.released_at q (stale_at q ns) ∙ u in
          update_clutches-Blocked h (record g { provider = q'; ctrl_times = seen g.ctrl_times ns })
            ns (state_of q' ns) (rw (b.required) refl)
            (state_of-ends g.adapter.released_at q' ns u') u' b.monitor
      from_result (err e) u = b

  -- `Blocked` speaks of four parts of a gate.
  pub Blocked-same :
      (r : ℕ) (g g' : QuestTransportGate h)
      → g'.adapter ≡ g.adapter
      → g'.last_clutch ≡ g.last_clutch
      → g'.provider ≡ g.provider
      → g'.clutches ≡ g.clutches
      → Blocked h r g
      → Blocked h r g'
  Blocked-same r g g' a l p c b = record {
    required = ap (λ t. t.shared_release_required) a ∙ b.required;
    threshold = ap (λ t. t.released_at) a ∙ b.threshold;
    arm_off = ap (λ t. t.arm_engaged) l ∙ b.arm_off;
    hand_off = ap (λ t. t.hand_engaged) l ∙ b.hand_off;
    waiting = rw p b.waiting;
    monitor = rw c b.monitor;
  }

  finish_hand_head-Blocked :
      (r : ℕ) (g : QuestTransportGate h) (packets : h.Packets) (ns : ℕ) (c : Option h.Canonical)
      → Blocked h r g
      → Blocked h r (finish_hand_head h g packets ns c).0
  unfolding finish_hand_head
  finish_hand_head-Blocked r g packets ns none b = Blocked-same r g _ refl refl refl refl b
  finish_hand_head-Blocked r g packets ns (some c) b = Blocked-same r g _ refl refl refl refl b

  ingest_hand_head-Blocked :
      (r : ℕ) (g : QuestTransportGate h) (packets : h.Packets) (d : Datagram)
      → Blocked h r g
      → Blocked h r (ingest_hand_head h g packets d).0
  unfolding ingest_hand_head
  ingest_hand_head-Blocked r g packets d b =
      let t = h.assemble g.assembler packets d in
      let g' : QuestTransportGate h = record g { assembler = t.0 } in
      if_keeps (λ (x : QuestTransportGate h × GateIngestResult). Blocked h r x.0)
        (h.no_packets packets) _ _ (Blocked-same r g _ refl refl refl refl b)
        (finish_hand_head-Blocked r g' packets d.receive_monotonic_ns t.1
          (Blocked-same r g g' refl refl refl refl b))

  -- A malformed CTRL datagram blocks, whatever was before.
  pub ingest_malformed-Blocked :
      (g : QuestTransportGate h) (d : Datagram)
      → is_ctrl d.payload ≡ true
      → Monitor.IsValid g.clutches
      → Blocked h g.adapter.released_at (ingest_malformed h g d).0
  unfolding ingest_malformed invalidate
  ingest_malformed-Blocked g d c v =
      let g' : QuestTransportGate h = record g {
        malformed_ctrl_count = g.malformed_ctrl_count + 1;
        provider = kept_invalid g.provider (invalidate g.provider "malformed_ctrl");
      } in
      rw c (update_now-Blocked h g' d.receive_monotonic_ns (ground arith) refl v)

  -- A malformed datagram that is none of CTRL only counts.
  other_malformed-Blocked :
      (r : ℕ) (g : QuestTransportGate h) (d : Datagram)
      → is_ctrl d.payload ≡ false
      → Blocked h r g
      → Blocked h r (ingest_malformed h g d).0
  unfolding ingest_malformed
  other_malformed-Blocked r g d c b = rw c (Blocked-same r g _ refl refl refl refl b)

  -- What every event leaves, from a gate in which a release is demanded: `Blocked`.
  pub dispatch-Blocked :
      (r : ℕ) (g : QuestTransportGate h) (d : Datagram) (t : Dispatched h.Packets)
      → released r t ≡ false
      → Blocked h r g
      → Blocked h r (kept h g (dispatch h g d t))
  unfolding dispatch
  dispatch-Blocked r g d (controller packet) n b =
      let b' = rw (← b.threshold) at b in
      rw (← b.threshold)
        (ingest_controller-Blocked g packet d.receive_monotonic_ns (rw b.threshold n) b')
  dispatch-Blocked r g d (hand_head packets) n b = ingest_hand_head-Blocked r g packets d b
  dispatch-Blocked r g d malformed n b = elim (Bool-cases (is_ctrl d.payload)) [
    | inl c ↦ rw (← b.threshold) (ingest_malformed-Blocked g d c b.monitor)
    | inr c ↦ other_malformed-Blocked r g d c b
  ]
