-- ===== src/Headset/Gate.antt =====
-- src/motion_input/transport_gate.py: `QuestTransportGate`, which receives the datagrams of the
-- headset and drives provider, adapter and hysteresis channels. Parsing a datagram and assembling
-- the packets of hand and head are not modelled: they are the operations of a `HandHead`. Left out
-- are the texts of errors, and the summaries, which format numbers.
pub mod Releases
pub mod Blocking
pub mod Safety
use embodied_hand_lab.Prelude.{
  ℕ, ◌+◌, ◌-◌, ◌*◌, ◌^◌, Bool, true, false, not, ◌&&◌, Option, none, some, List, [], ◌∷◌, ◌++◌,
  Result, ok, err, ◌>>=◌, ltb, ◌==◌, is_none, if◌then◌else◌, String,
}
use embodied_hand_lab.Clutch.{AnalogHoldToRun}
use embodied_hand_lab.Headset.Samples.{ControllerPacket, ControllerProviderState, Error}
use embodied_hand_lab.Headset.Provider
use embodied_hand_lab.Headset.Provider.{
  ControllerProvider, invalidate, snapshot_at, update_at, kept_invalid,
}
use embodied_hand_lab.Headset.Adapter.{ControllerClutchAdapter, samples}
use embodied_hand_lab.Headset.Datagrams.{
  Dispatched, controller, hand_head, malformed, Datagram, HandHead, IngestKind, malformed_ctrl,
  malformed_hand_head, controller_kind, ignored_ctrl, hand_head_kind, GateIngestResult, Channel,
  arm, hand, Transition, Stream, ctrl, right_hand, Times, no_times, seen, is_ctrl,
}
use embodied_hand_lab.Headset.Monitor
use embodied_hand_lab.Headset.Monitor.{TransportClutchMonitor, TransportClutchSnapshot}

-- The doubles 0.75 and 0.55, in units of 2 ^ -1074.
abbrev pub pressed_at : ℕ
pressed_at = 3 * 2 ^ 1072

abbrev pub released_at : ℕ
released_at = 0x1199999999999a * 2 ^ 1021

abbrev open_channel : AnalogHoldToRun
open_channel = record {
  pressed_at = pressed_at;
  released_at = released_at;
  pressed = none;
  released_observed = false;
  last_sequence = none;
}

module _ (h : HandHead) where
  open h use {Packets, Assembler, Canonical, parse, no_packets, has_hand, has_head, assemble, state}

  pub record QuestTransportGate : Type 0 where
    pub started_monotonic_ns : ℕ
    pub provider : ControllerProvider
    pub adapter : ControllerClutchAdapter
    pub clutches : TransportClutchMonitor
    pub assembler : Assembler
    pub hand_datagram_count : ℕ
    pub head_datagram_count : ℕ
    pub malformed_ctrl_count : ℕ
    pub malformed_hand_head_count : ℕ
    pub unknown_packet_count : ℕ
    pub ctrl_times : Times
    pub hand_times : Times
    pub head_times : Times
    pub clutch_transitions : List Transition
    pub last_clutch : TransportClutchSnapshot
    pub last_canonical : Canonical

  -- `__init__`, given the bounds of staleness and of a pause of the source (0.25 s) as nanoseconds.
  unfoldable pub new : ℕ → ℕ → ℕ → QuestTransportGate
  unfolding Provider.new
  new stale_after_ns source_pause_after_ns started_ns =
      let t = state h.start started_ns in
      record {
        started_monotonic_ns = started_ns;
        provider = Provider.new stale_after_ns source_pause_after_ns;
        adapter = record {
          released_at = released_at;
          shared_release_required = true;
          session_id = none;
        };
        clutches = record { arm = open_channel; hand = open_channel; invalid_latched = false };
        assembler = t.0;
        hand_datagram_count = 0;
        head_datagram_count = 0;
        malformed_ctrl_count = 0;
        malformed_hand_head_count = 0;
        unknown_packet_count = 0;
        ctrl_times = no_times;
        hand_times = no_times;
        head_times = no_times;
        clutch_transitions = [];
        last_clutch = record {
          arm_engaged = false;
          hand_engaged = false;
          arm_release_required = true;
          hand_release_required = true;
          arm_rising_edge = false;
          arm_falling_edge = false;
          hand_rising_edge = false;
          hand_falling_edge = false;
        };
        last_canonical = t.1;
      }

  -- `_record_transition`: what it appends.
  unfoldable pub transition_of : Channel → Bool → Bool → ℕ → List Transition
  transition_of channel true true now_ns = []
  transition_of channel false false now_ns = []
  transition_of channel previous current now_ns =
      record {
        timestamp_monotonic_ns = now_ns;
        channel = channel;
        previous = previous;
        current = current;
      }
      ∷ []

  -- `_update_clutches`, given a state.
  unfoldable pub update_clutches :
      QuestTransportGate → ℕ → ControllerProviderState → QuestTransportGate
  update_clutches g now_ns s =
      let (adapter, frame) = samples g.adapter s in
      let (clutches, current) = Monitor.update g.clutches frame now_ns g.provider.stale_after_ns in
      record g {
        adapter = adapter;
        clutches = clutches;
        clutch_transitions =
            g.clutch_transitions
            ++ (transition_of arm g.last_clutch.arm_engaged current.arm_engaged now_ns
                ++ transition_of hand g.last_clutch.hand_engaged current.hand_engaged now_ns);
        last_clutch = current;
      }

  -- A snapshot of the provider, and `_update_clutches` with it.
  unfoldable pub update_now : QuestTransportGate → ℕ → QuestTransportGate
  unfolding update_clutches
  update_now g now_ns =
      let (provider, s) = snapshot_at g.provider now_ns in
      update_clutches (record g { provider = provider }) now_ns s

  abbrev result : IngestKind → Bool → GateIngestResult
  result kind accepted = record { kind = kind; accepted = accepted }

  -- The branch of `ingest` for a datagram that the parser refuses.
  unfoldable pub ingest_malformed :
      QuestTransportGate → Datagram → QuestTransportGate × GateIngestResult
  unfolding update_now
  ingest_malformed g d =
      if is_ctrl d.payload
      then (
        update_now
            (record g {
              malformed_ctrl_count = g.malformed_ctrl_count + 1;
              provider = kept_invalid g.provider (invalidate g.provider "malformed_ctrl");
            })
            d.receive_monotonic_ns,
        result malformed_ctrl false,
      )
      else (
        record g { malformed_hand_head_count = g.malformed_hand_head_count + 1 },
        result malformed_hand_head false,
      )

  -- The branch for a CTRL packet.
  unfoldable pub ingest_controller :
      QuestTransportGate
      → ControllerPacket
      → ℕ
      → Result Error (QuestTransportGate × GateIngestResult)
  unfolding update_clutches
  ingest_controller g packet now_ns = update_at g.provider packet now_ns >>= λ t. ok (
    update_clutches (record g { provider = t.0; ctrl_times = seen g.ctrl_times now_ns }) now_ns t.1,
    result controller_kind true,
  )

  -- The branch for the packets of hand and head, after they are assembled.
  unfoldable pub finish_hand_head :
      QuestTransportGate → Packets → ℕ → Option Canonical → QuestTransportGate × GateIngestResult
  finish_hand_head g packets now_ns none = (
    record g { malformed_hand_head_count = g.malformed_hand_head_count + 1 },
    result malformed_hand_head false,
  )
  finish_hand_head g packets now_ns (some canonical) =
      let hand = has_hand packets in
      let head = has_head packets in
      (
        record g {
          last_canonical = canonical;
          hand_datagram_count = g.hand_datagram_count + (if hand then 1 else 0);
          hand_times = if hand then seen g.hand_times now_ns else g.hand_times;
          head_datagram_count = g.head_datagram_count + (if head then 1 else 0);
          head_times = if head then seen g.head_times now_ns else g.head_times;
        },
        result hand_head_kind true,
      )

  unfoldable pub ingest_hand_head :
      QuestTransportGate → Packets → Datagram → QuestTransportGate × GateIngestResult
  unfolding finish_hand_head
  ingest_hand_head g packets d =
      if no_packets packets
      then (
        record g { unknown_packet_count = g.unknown_packet_count + 1 },
        result ignored_ctrl false,
      )
      else let (assembler, canonical) = assemble g.assembler packets d in
        finish_hand_head (record g { assembler = assembler }) packets d.receive_monotonic_ns
          canonical

  unfoldable pub dispatch :
      QuestTransportGate
      → Datagram
      → Dispatched Packets
      → Result Error (QuestTransportGate × GateIngestResult)
  unfolding ingest_controller ingest_hand_head ingest_malformed
  dispatch g d (controller packet) = ingest_controller g packet d.receive_monotonic_ns
  dispatch g d (hand_head packets) = ok (ingest_hand_head g packets d)
  dispatch g d malformed = ok (ingest_malformed g d)

  unfoldable pub ingest :
      QuestTransportGate → Datagram → Result Error (QuestTransportGate × GateIngestResult)
  unfolding dispatch
  ingest g d = dispatch g d (parse d.payload)

  unfoldable pub poll : QuestTransportGate → ℕ → QuestTransportGate
  unfolding update_now
  poll g now_ns =
      let g' = update_now g now_ns in
      let (assembler, canonical) = state g'.assembler now_ns in
      record g' { assembler = assembler; last_canonical = canonical }

  -- `missing_required_streams_after`, given the timeout as nanoseconds.
  unfoldable pub missing_required_streams_after : QuestTransportGate → ℕ → ℕ → List Stream
  missing_required_streams_after g timeout_ns now_ns =
      if ltb now_ns (g.started_monotonic_ns + timeout_ns)
      then []
      else (if is_none g.ctrl_times.first then ctrl ∷ [] else [])
        ++ (if is_none g.hand_times.first then right_hand ∷ [] else [])

  -- What happens to a gate, and what it leaves.
  pub data Event : Type 0 where
    ingest_event : Datagram → Event
    poll_event : ℕ → Event

  abbrev pub kept :
      QuestTransportGate → Result Error (QuestTransportGate × GateIngestResult) → QuestTransportGate
  kept g (ok t) = t.0
  kept g (err e) = g

  unfoldable pub apply : QuestTransportGate → Event → QuestTransportGate
  apply g (ingest_event d) = kept g (ingest g d)
  apply g (poll_event now_ns) = poll g now_ns

  unfoldable pub run : QuestTransportGate → List Event → QuestTransportGate
  run g [] = g
  run g (x ∷ xs) = run (apply g x) xs
