-- ===== src/Headset/Datagrams.antt =====
-- src/motion_input/transport_gate.py: the datagrams that the gate receives, what parser and assembler
-- make of them, and the values that the gate returns and keeps.
use embodied_hand_lab.Prelude.{ℕ, Bool, false, ◌&&◌, Option, none, some, List, ◌∷◌, ◌==◌, String}
use embodied_hand_lab.Headset.Samples.{ControllerPacket}

-- What `parse_quest_transport_datagram` returns or raises: a CTRL packet, the packets of hand and
-- head, or an error.
pub data Dispatched (H : Type 0) : Type 0 where
  controller : ControllerPacket → Dispatched H
  hand_head : H → Dispatched H
  malformed : Dispatched H

pub record Datagram : Type 0 where
  pub payload : List ℕ
  pub source_endpoint : String
  pub receive_monotonic_ns : ℕ

-- The parser, and the assembler of the packets of hand and head with what it keeps.
pub record HandHead : Type 1 where
  pub Packets : Type 0
  pub Assembler : Type 0
  pub Canonical : Type 0
  pub parse : List ℕ → Dispatched Packets
  pub no_packets : Packets → Bool
  pub has_hand : Packets → Bool
  pub has_head : Packets → Bool
  pub start : Assembler
  -- `HtsCanonicalAssembler.ingest`, which may raise `SerializationError`
  pub assemble : Assembler → Packets → Datagram → Assembler × Option Canonical
  pub state : Assembler → ℕ → Assembler × Canonical

-- The kinds of `GateIngestResult`
pub data IngestKind : Type 0 where
  malformed_ctrl malformed_hand_head controller_kind ignored_ctrl hand_head_kind : IngestKind

pub record GateIngestResult : Type 0 where
  pub kind : IngestKind
  pub accepted : Bool

-- An entry of `clutch_transitions`; its reason is "press_edge" if `current`, "release_or_invalid"
-- otherwise.
pub data Channel : Type 0 where
  arm hand : Channel

pub record Transition : Type 0 where
  pub timestamp_monotonic_ns : ℕ
  pub channel : Channel
  pub previous : Bool
  pub current : Bool

pub data Stream : Type 0 where
  ctrl right_hand : Stream

-- The first and the last time of a stream.
pub record Times : Type 0 where
  pub first : Option ℕ
  pub last : Option ℕ

abbrev pub no_times : Times
no_times = record { first = none; last = none }

abbrev pub seen : Times → ℕ → Times
seen t now_ns = record {
  first = elim t.first [ none ↦ some now_ns | some n ↦ some n ];
  last = some now_ns;
}

-- `payload.startswith(b"CTRL")`
abbrev pub is_ctrl : List ℕ → Bool
is_ctrl (c ∷ t ∷ r ∷ l ∷ rest) = (c == b'C') && ((t == b'T') && ((r == b'R') && (l == b'L')))
is_ctrl _ = false
