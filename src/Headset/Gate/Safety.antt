-- ===== src/Headset/Gate/Safety.antt =====
-- When a gate of src/motion_input/transport_gate.py reports a clutch as engaged.
use embodied_hand_lab.Prelude.{
  ℕ, ◌+◌, ◌≡◌, ◌⊎◌, Bool, true, false, Option, none, some, List, [], ◌∷◌, Result, ok, err, ◌>>=◌,
  arith, refl, if_keeps, All, ◌∙◌, ap,
}
use embodied_hand_lab.Headset.Samples.{ControllerPacket, ControllerProviderState, Error}
use embodied_hand_lab.Headset.Provider.{
  ControllerProvider, snapshot_at, update_at, kept_invalid, invalidate,
}
use embodied_hand_lab.Headset.Adapter.{ControllerClutchAdapter, samples, samples_from}
use embodied_hand_lab.Headset.Monitor
use embodied_hand_lab.Headset.Monitor.{update_invalid, update-IsValid}
use embodied_hand_lab.Headset.Datagrams.{
  HandHead, Datagram, Dispatched, controller, hand_head, malformed, is_ctrl, GateIngestResult, seen,
  controller_kind,
}
use embodied_hand_lab.Headset.Gate.{
  QuestTransportGate, new, released_at, update_clutches, update_now, ingest_malformed,
  ingest_controller, ingest_hand_head, finish_hand_head, dispatch, ingest, poll, Event,
  ingest_event, poll_event, kept, apply, run,
}
use embodied_hand_lab.Headset.Gate.Blocking.{
  Blocked, NotRelease, dispatch-Blocked, update_now-Blocked, ingest_malformed-Blocked, Blocked-same,
}
use embodied_hand_lab.Headset.Gate.Releases.{usable}

-- A frame demands a release exactly as the adapter does, and the threshold stays.
samples_from_agree :
    (a : ControllerClutchAdapter) (latest : Option ControllerPacket) (received : Option ℕ)
    → (valid : Bool)
    → let t = samples_from a latest received valid in
      (t.0.shared_release_required ≡ t.1.shared_release_required)
      × (t.0.released_at ≡ a.released_at)
unfolding samples_from
samples_from_agree a none received valid = (refl, refl)
samples_from_agree a (some l) none valid = (refl, refl)
samples_from_agree a (some l) (some received) valid = (refl, refl)

module _ (h : HandHead) where
  -- The threshold is 0.55, and while a release is demanded no channel is engaged.
  pub record IsSound (g : QuestTransportGate h) : Type 0 where
    pub threshold : g.adapter.released_at ≡ released_at
    pub monitor : Monitor.IsValid g.clutches
    pub arm_off : g.adapter.shared_release_required ≡ true → g.last_clutch.arm_engaged ≡ false
    pub hand_off : g.adapter.shared_release_required ≡ true → g.last_clutch.hand_engaged ≡ false

  new-IsSound : (a b c : ℕ) → IsSound (new h a b c)
  unfolding new
  new-IsSound a b c = record {
    threshold = refl;
    monitor = record { arm_off = λ e. refl; hand_off = λ e. refl };
    arm_off = λ e. refl;
    hand_off = λ e. refl;
  }

  IsSound-same :
      (g g' : QuestTransportGate h)
      → g'.adapter ≡ g.adapter
      → g'.last_clutch ≡ g.last_clutch
      → g'.clutches ≡ g.clutches
      → IsSound g
      → IsSound g'
  IsSound-same g g' a l c s = record {
    threshold = ap (λ t. t.released_at) a ∙ s.threshold;
    monitor = rw c (s.monitor);
    arm_off = λ e. rw l (s.arm_off (rw (← a) e));
    hand_off = λ e. rw l (s.hand_off (rw (← a) e));
  }

  update_clutches-IsSound :
      (g : QuestTransportGate h) (now_ns : ℕ) (s : ControllerProviderState)
      → IsSound g
      → IsSound (update_clutches h g now_ns s)
  unfolding update_clutches samples
  update_clutches-IsSound g now_ns s v =
      let agree =
        samples_from_agree g.adapter s.latest s.host_receive_monotonic_ns s.controller_valid in
      let frame =
        (samples_from g.adapter s.latest s.host_receive_monotonic_ns s.controller_valid).1 in
      let off = update_invalid g.clutches frame now_ns g.provider.stale_after_ns v.monitor in
      record {
        threshold = agree.1 ∙ v.threshold;
        monitor = update-IsValid g.clutches frame now_ns g.provider.stale_after_ns v.monitor;
        arm_off = λ e. (off (rw (← agree.0) e)).0;
        hand_off = λ e. (off (rw (← agree.0) e)).1;
      }

  update_now-IsSound :
      (g : QuestTransportGate h) (now_ns : ℕ) → IsSound g → IsSound (update_now h g now_ns)
  unfolding update_now
  update_now-IsSound g now_ns v =
      let t = snapshot_at g.provider now_ns in
      let g' : QuestTransportGate h = record g { provider = t.0 } in
      update_clutches-IsSound g' now_ns t.1 (IsSound-same g g' refl refl refl v)

  ingest_controller-IsSound :
      (g : QuestTransportGate h) (packet : ControllerPacket) (ns : ℕ)
      → IsSound g
      → IsSound (kept h g (ingest_controller h g packet ns))
  unfolding ingest_controller
  ingest_controller-IsSound g packet ns v = from_result (update_at g.provider packet ns)
    where
      from_result :
          (r : Result Error (ControllerProvider × ControllerProviderState))
          → IsSound (
              kept h g (
                r >>= λ t. ok (
                  update_clutches h
                      (record g { provider = t.0; ctrl_times = seen g.ctrl_times ns })
                      ns
                      t.1,
                  record { kind = controller_kind; accepted = true },
                )))
      from_result (ok t) =
          let g' : QuestTransportGate h = record g {
            provider = t.0;
            ctrl_times = seen g.ctrl_times ns;
          } in
          update_clutches-IsSound g' ns t.1 (IsSound-same g g' refl refl refl v)
      from_result (err e) = v

  finish_hand_head-IsSound :
      (g : QuestTransportGate h) (packets : h.Packets) (ns : ℕ) (c : Option h.Canonical)
      → IsSound g
      → IsSound (finish_hand_head h g packets ns c).0
  unfolding finish_hand_head
  finish_hand_head-IsSound g packets ns none v = IsSound-same g _ refl refl refl v
  finish_hand_head-IsSound g packets ns (some c) v = IsSound-same g _ refl refl refl v

  dispatch-IsSound :
      (g : QuestTransportGate h) (d : Datagram) (t : Dispatched h.Packets)
      → IsSound g
      → IsSound (kept h g (dispatch h g d t))
  unfolding dispatch ingest_hand_head ingest_malformed
  dispatch-IsSound g d (controller packet) v =
      ingest_controller-IsSound g packet d.receive_monotonic_ns v
  dispatch-IsSound g d (hand_head packets) v =
      let t = h.assemble g.assembler packets d in
      let g' : QuestTransportGate h = record g { assembler = t.0 } in
      if_keeps (λ (x : QuestTransportGate h × GateIngestResult). IsSound x.0) (h.no_packets packets)
        _ _ (IsSound-same g _ refl refl refl v)
        (finish_hand_head-IsSound g' packets d.receive_monotonic_ns t.1
          (IsSound-same g g' refl refl refl v))
  dispatch-IsSound g d malformed v =
      let g' : QuestTransportGate h = record g {
        malformed_ctrl_count = g.malformed_ctrl_count + 1;
        provider = kept_invalid g.provider (invalidate g.provider "malformed_ctrl");
      } in
      if_keeps (λ (x : QuestTransportGate h × GateIngestResult). IsSound x.0) (is_ctrl d.payload) _
        _ (update_now-IsSound g' d.receive_monotonic_ns (IsSound-same g g' refl refl refl v))
        (IsSound-same g _ refl refl refl v)

  apply-IsSound : (g : QuestTransportGate h) (x : Event h) → IsSound g → IsSound (apply h g x)
  unfolding apply ingest poll
  apply-IsSound g (ingest_event d) v = dispatch-IsSound g d (h.parse d.payload) v
  apply-IsSound g (poll_event now_ns) v =
      IsSound-same (update_now h g now_ns) _ refl refl refl (update_now-IsSound g now_ns v)

  run-IsSound : (g : QuestTransportGate h) (xs : List (Event h)) → IsSound g → IsSound (run h g xs)
  unfolding run
  run-IsSound g [] v = v
  run-IsSound g (x ∷ xs) v = run-IsSound (apply h g x) xs (apply-IsSound g x v)

  apply-Blocked :
      (r : ℕ) (g : QuestTransportGate h) (x : Event h)
      → NotRelease h r x
      → Blocked h r g
      → Blocked h r (apply h g x)
  unfolding apply ingest poll
  apply-Blocked r g (ingest_event d) n b = dispatch-Blocked h r g d (h.parse d.payload) n b
  apply-Blocked r g (poll_event now_ns) n b =
      let u : usable g.adapter.released_at g.provider ≡ false = rw b.threshold b.waiting in
      Blocked-same h r (update_now h g now_ns) _ refl refl refl refl
        (rw (← b.threshold) (update_now-Blocked h g now_ns (rw (b.required) refl) u b.monitor))

  run-Blocked :
      (r : ℕ) (g : QuestTransportGate h) (xs : List (Event h))
      → All (NotRelease h r) xs
      → Blocked h r g
      → Blocked h r (run h g xs)
  unfolding run
  run-Blocked r g [] n b = b
  run-Blocked r g (x ∷ xs) n b = run-Blocked r (apply h g x) xs n.1 (apply-Blocked r g x n.0 b)

  -- A clutch that is engaged.
  abbrev pub AnyEngaged : QuestTransportGate h → Type 0
  AnyEngaged g = (g.last_clutch.arm_engaged ≡ true) ⊎ (g.last_clutch.hand_engaged ≡ true)

  malformed-Blocked :
      (g : QuestTransportGate h) (d : Datagram)
      → h.parse d.payload ≡ malformed
      → is_ctrl d.payload ≡ true
      → IsSound g
      → Blocked h released_at (apply h g (ingest_event d))
  unfolding apply ingest dispatch
  malformed-Blocked g d m c v =
      rw (m) (rw (← v.threshold) (ingest_malformed-Blocked h g d c v.monitor))

  -- Whatever a gate received before, a CTRL datagram that the parser refuses releases both clutches,
  -- and nothing that is received or polled later engages one of them unless a CTRL packet is among
  -- it that is connected, active and tracked with both triggers at or below 0.55.
  pub malformed_needs_release :
      (stale_after_ns source_pause_after_ns started_ns : ℕ)
      → (before : List (Event h)) (d : Datagram) (after : List (Event h))
      → h.parse d.payload ≡ malformed
      → is_ctrl d.payload ≡ true
      → All (NotRelease h released_at) after
      → let g = run h (new h stale_after_ns source_pause_after_ns started_ns) before in
        ¬ AnyEngaged (run h (apply h g (ingest_event d)) after)
  malformed_needs_release a b c before d after m k n e =
      let sound = run-IsSound (new h a b c) before (new-IsSound a b c) in
      let g = run h (new h a b c) before in
      let blocked =
        run-Blocked released_at (apply h g (ingest_event d)) after n
          (malformed-Blocked g d m k sound) in
      ground (arith, blocked.arm_off, blocked.hand_off)

  -- Whatever a gate received and whenever it was polled, no clutch is engaged while the adapter
  -- demands a release, the release threshold is 0.55, and neither channel is pressed while the inputs
  -- are known to be invalid.
  pub gate_run-IsSound :
      (stale_after_ns source_pause_after_ns started_ns : ℕ) (xs : List (Event h))
      → IsSound (run h (new h stale_after_ns source_pause_after_ns started_ns) xs)
  gate_run-IsSound a b c xs = run-IsSound (new h a b c) xs (new-IsSound a b c)
