-- ===== src/Tests/Transport.antt =====
-- The controller of the headset, as src/motion_input/controller_provider.py and transport_gate.py
-- see it, with a parser that takes a session, a sequence number and two triggers in hundredths.
use embodied_hand_lab.Prelude.{ℕ, ◌*◌, ◌/◌, ◌≡◌, refl, Bool, true, false, some, List, [], ◌∷◌}
use embodied_hand_lab.Prelude.Int.{pos, negsuc}
use embodied_hand_lab.Float.{units_one}
use embodied_hand_lab.Clutch.{observe, is_fresh}
use embodied_hand_lab.Headset.Samples.{ControllerPacket, facts_valid}
use embodied_hand_lab.Headset.Provider
use embodied_hand_lab.Headset.Provider.{Call, update_call, snapshot_call, invalidate_call}
use embodied_hand_lab.Headset.Provider.Invariant.{new-IsValid, provider_run-IsValid}
use embodied_hand_lab.Headset.Provider.Sessions.{NeverAgain, accepted_packets, accepted-NeverAgain}
use embodied_hand_lab.Headset.Provider.Validity.{Judged, snapshot-Judged}
use embodied_hand_lab.Headset.Adapter.{samples}
use embodied_hand_lab.Headset.Monitor
use embodied_hand_lab.Headset.Datagrams.{HandHead, Datagram, Dispatched, controller, malformed}
use embodied_hand_lab.Headset.Gate
use embodied_hand_lab.Headset.Gate.{Event, ingest_event, poll_event, released_at}
use embodied_hand_lab.Headset.Gate.Safety.{
  AnyEngaged, IsSound, malformed_needs_release, gate_run-IsSound,
}

abbrev packet : ℕ → ℕ → ℕ → ℕ → ControllerPacket
packet session sequence index grip = record {
  version = 1;
  session_id = session;
  sequence_number = sequence;
  source_timestamp_ns = sequence * 10;
  connected = true;
  active = true;
  tracked = true;
  index_trigger = index * (units_one / 100);
  grip_trigger = grip * (units_one / 100);
}

abbrev parse : List ℕ → Dispatched ℕ
parse (s ∷ n ∷ i ∷ g ∷ []) = controller (packet s n i g)
parse _ = malformed

abbrev numbers : HandHead
numbers = record {
  Packets = ℕ;
  Assembler = ℕ;
  Canonical = ℕ;
  parse = parse;
  no_packets = λ n. false;
  has_hand = λ n. true;
  has_head = λ n. true;
  start = 0;
  assemble = λ a n d. (a, some n);
  state = λ a n. (a, n);
}

abbrev datagram : ℕ → List ℕ → Datagram
datagram now_ns payload = record {
  payload = payload;
  source_endpoint = "headset";
  receive_monotonic_ns = now_ns;
}

-- "CTRLX", which the parser refuses.
abbrev broken : Datagram
broken = datagram 30 (b'C' ∷ b'T' ∷ b'R' ∷ b'L' ∷ b'X' ∷ [])

-- A release, then the index trigger pressed.
abbrev engaging : List (Event numbers)
engaging =
    ingest_event (datagram 10 (7 ∷ 1 ∷ 0 ∷ 0 ∷ []))
    ∷ ingest_event (datagram 20 (7 ∷ 2 ∷ 90 ∷ 0 ∷ []))
    ∷ []

-- The trigger is still held.
abbrev held : List (Event numbers)
held = ingest_event (datagram 40 (7 ∷ 3 ∷ 90 ∷ 0 ∷ [])) ∷ poll_event 50 ∷ []

arm_engages :
    (Gate.run numbers (Gate.new numbers 100 100 0) engaging).last_clutch.arm_engaged ≡ true
unfolding Gate.run Gate.apply Gate.new Gate.ingest Gate.poll Provider.update_at samples
    Monitor.update Monitor.transport_snapshot observe is_fresh
arm_engages = refl

malformed_needs_release_example : ¬ AnyEngaged numbers (
    Gate.run numbers
      (Gate.apply numbers
        (Gate.run numbers (Gate.new numbers 100 100 0) engaging)
        (ingest_event broken))
      held)
unfolding facts_valid
malformed_needs_release_example =
    malformed_needs_release numbers 100 100 0 engaging broken held refl refl
      (let n : ◌≡◌ {A = Bool} false false = refl in (n, (tt, tt)))

gate_run-IsSound_example : IsSound numbers (Gate.run numbers (Gate.new numbers 100 100 0) engaging)
gate_run-IsSound_example = gate_run-IsSound numbers 100 100 0 engaging

-- A duplicate, a new session, a packet of the old one, and a time before the start of the clock.
abbrev calls : List Call
calls =
    update_call (packet 7 1 0 0) (pos 10)
    ∷ update_call (packet 7 1 0 0) (pos 11)
    ∷ update_call (packet 7 4 50 0) (pos 12)
    ∷ invalidate_call "malformed_ctrl"
    ∷ update_call (packet 8 1 0 0) (pos 20)
    ∷ update_call (packet 7 5 0 0) (pos 21)
    ∷ update_call (packet 8 2 0 0) (negsuc 0)
    ∷ snapshot_call (pos 300)
    ∷ []

provider_run-IsValid_example :
    Provider.Invariant.IsValid 0 (Provider.run (Provider.new 100 100) calls)
provider_run-IsValid_example = provider_run-IsValid 100 100 calls

accepted-NeverAgain_example : NeverAgain (accepted_packets (Provider.new 100 100) calls)
accepted-NeverAgain_example = accepted-NeverAgain (Provider.new 100 100) calls (new-IsValid 100 100)

snapshot-Judged_example :
    Judged (Provider.new 100 100) 5 (Provider.snapshot_at (Provider.new 100 100) 5).1
snapshot-Judged_example = snapshot-Judged (Provider.new 100 100) 5
