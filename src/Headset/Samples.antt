-- ===== src/Headset/Samples.antt =====
-- src/motion_input/controller_protocol.py and controller_provider.py: the packet that the parser
-- gives, and the state that the provider returns. Numbers of a packet are natural and its triggers
-- lie in [0, 1], in units of 2 ^ -1074 (`Float`). A text that names a fault is a value of `Fault`.
use embodied_hand_lab.Prelude.{
  ℕ, Bool, true, false, ◌&&◌, Option, none, some, List, [], ◌∷◌, ◌++◌, String, if◌then◌else◌,
}
use embodied_hand_lab.Prelude.Int.{ℤ}

-- `ValueError` for a time or for a reason, `AssertionError`
pub data Error : Type 0 where
  bad_timestamp reason_required assertion_failed : Error

pub record ControllerPacket : Type 0 where
  pub version : ℕ
  pub session_id : ℕ
  pub sequence_number : ℕ
  pub source_timestamp_ns : ℕ
  pub connected : Bool
  pub active : Bool
  pub tracked : Bool
  pub index_trigger : ℕ
  pub grip_trigger : ℕ

unfoldable pub facts_valid : ControllerPacket → Bool
facts_valid p = p.connected && (p.active && p.tracked)

-- The words that `_invalid_reason` joins by "+".
pub data Fact : Type 0 where
  disconnected inactive untracked : Fact

-- The texts that name a fault: those of the code, a join of facts, and the one that a caller gives.
pub data Fault : Type 0 where
  no_sample stale old_session_packet initial_session new_session duplicate sequence_reorder : Fault
  sequence_gap source_timestamp_reorder source_pause no_fault : Fault
  facts : List Fact → Fault
  forced : String → Fault

-- The counters, which a state copies.
pub record Counts : Type 0 where
  pub packet_count : ℕ
  pub accepted_count : ℕ
  pub invalid_count : ℕ
  pub gap_event_count : ℕ
  pub missing_sequence_count : ℕ
  pub duplicate_count : ℕ
  pub reorder_count : ℕ
  pub new_session_count : ℕ
  pub session_count : ℕ
  pub old_session_packet_count : ℕ
  pub stale_event_count : ℕ
  pub source_pause_count : ℕ
  pub source_reorder_count : ℕ

pub record ControllerProviderState : Type 0 where
  pub latest : Option ControllerPacket
  pub host_receive_monotonic_ns : Option ℕ
  pub sample_age_ns : Option ℕ
  pub stale : Bool
  pub controller_valid : Bool
  pub invalid_reason : Option Fault
  pub active_fault : Fault
  pub sequence_gap : ℕ
  pub source_interval_ns : Option ℤ
  pub source_pause : Bool
  pub counts : Counts

abbrev pub no_counts : Counts
no_counts = record {
  packet_count = 0;
  accepted_count = 0;
  invalid_count = 0;
  gap_event_count = 0;
  missing_sequence_count = 0;
  duplicate_count = 0;
  reorder_count = 0;
  new_session_count = 0;
  session_count = 0;
  old_session_packet_count = 0;
  stale_event_count = 0;
  source_pause_count = 0;
  source_reorder_count = 0;
}

-- `[w for the facts that do not hold]`
unfoldable pub missing_facts : ControllerPacket → List Fact
missing_facts p =
    (if p.connected then [] else disconnected ∷ [])
    ++ ((if p.active then [] else inactive ∷ []) ++ (if p.tracked then [] else untracked ∷ []))

-- `"+".join(reasons) or None`
abbrev pub joined : List Fact → Option Fault
joined [] = none
joined (w ∷ ws) = some (facts (w ∷ ws))

-- `_invalid_reason`
unfoldable pub invalid_reason_of : Option ControllerPacket → Bool → Option Fault
unfolding missing_facts
invalid_reason_of latest true = some stale
invalid_reason_of none false = some no_sample
invalid_reason_of (some p) false = joined (missing_facts p)
