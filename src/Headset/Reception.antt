-- ===== src/Headset/Reception.antt =====
-- src/motion_input/controller_provider.py: the state of `ControllerProvider`, and what `update` does with
-- a packet before it takes a snapshot.
use embodied_hand_lab.Prelude.{
  ℕ, ◌+◌, ◌-◌, Bool, true, false, not, ◌&&◌, ◌||◌, Option, none, some, List, [], ◌∷◌, String,
  Result, ok, err, ltb, ◌==◌, if◌then◌else◌,
}
use embodied_hand_lab.Prelude.Int.{ℤ, pos, sub_ℕ, ltbℤ}
use embodied_hand_lab.Headset.Samples.{
  Error, assertion_failed, ControllerPacket, facts_valid, Fault, no_sample, old_session_packet,
  initial_session, new_session, duplicate, sequence_reorder, sequence_gap, source_timestamp_reorder,
  source_pause, no_fault, forced, Counts, no_counts, invalid_reason_of,
}

pub record ControllerProvider : Type 0 where
  pub stale_after_ns : ℕ
  pub source_pause_after_ns : ℕ
  pub latest : Option ControllerPacket
  pub host_receive_ns : Option ℕ
  pub current_session : Option ℕ
  pub retired_sessions : List ℕ
  pub sequence_gap : ℕ
  pub source_interval_ns : Option ℤ
  pub source_pause : Bool
  pub counts : Counts
  pub active_fault : Fault
  pub stale_latched : Bool
  pub forced_invalid_reason : Option String

-- `__init__`, given the two bounds as nanoseconds.
unfoldable pub new : ℕ → ℕ → ControllerProvider
new stale_after_ns source_pause_after_ns = record {
  stale_after_ns = stale_after_ns;
  source_pause_after_ns = source_pause_after_ns;
  latest = none;
  host_receive_ns = none;
  current_session = none;
  retired_sessions = [];
  sequence_gap = 0;
  source_interval_ns = none;
  source_pause = false;
  counts = no_counts;
  active_fault = no_sample;
  stale_latched = true;
  forced_invalid_reason = none;
}

-- `a or b`
abbrev pub or_else : Option Fault → Fault → Fault
or_else none b = b
or_else (some a) b = a

abbrev pub or_forced : Option Fault → Option String → Option Fault
or_forced (some a) reason = some a
or_forced none none = none
or_forced none (some r) = some (forced r)

abbrev pub forced_or : Option String → Fault → Fault
forced_or none b = b
forced_or (some r) b = forced r

-- `s in retired`
abbrev pub contains : ℕ → List ℕ → Bool
contains s [] = false
contains s (r ∷ rest) = (s == r) || contains s rest

-- `_accept`
unfoldable pub accept : ControllerProvider → ControllerPacket → ℕ → Fault → ControllerProvider
unfolding invalid_reason_of facts_valid
accept p packet receive_ns fault = record p {
  latest = some packet;
  host_receive_ns = some receive_ns;
  forced_invalid_reason = none;
  counts = record p.counts {
    accepted_count = p.counts.accepted_count + 1;
    invalid_count =
        if facts_valid packet then p.counts.invalid_count else p.counts.invalid_count + 1;
  };
  active_fault = or_else (invalid_reason_of (some packet) false) fault;
  stale_latched = false;
}

-- The part of `update` for a packet that is ahead of the latest one of its session: the gap, the
-- interval on the clock of the source, and the fault that is named.
unfoldable pub advance :
    ControllerProvider → ControllerPacket → ControllerPacket → ℕ → ControllerProvider
unfolding accept
advance p last packet receive_ns =
    let gap = packet.sequence_number - last.sequence_number - 1 in
    let delta = sub_ℕ packet.source_timestamp_ns last.source_timestamp_ns in
    let back = ltbℤ delta (pos 0) in
    let pause = not back && ltbℤ (pos p.source_pause_after_ns) delta in
    accept
      (record p {
        sequence_gap = gap;
        source_interval_ns = some delta;
        source_pause = pause;
        counts = record p.counts {
          gap_event_count = p.counts.gap_event_count + (if gap == 0 then 0 else 1);
          missing_sequence_count = p.counts.missing_sequence_count + gap;
          source_reorder_count = p.counts.source_reorder_count + (if back then 1 else 0);
          source_pause_count = p.counts.source_pause_count + (if pause then 1 else 0);
        };
      })
      packet receive_ns
      (if back
        then source_timestamp_reorder
        else if pause
        then source_pause
        else if gap == 0
        then no_fault
        else sequence_gap)

-- The part of `update` for a packet of the current session, after the assertion.
unfoldable pub compare_sequence :
    ControllerProvider → ControllerPacket → ControllerPacket → ℕ → ControllerProvider
unfolding advance
compare_sequence p last packet receive_ns =
    if packet.sequence_number == last.sequence_number
    then record p {
      counts = record p.counts { duplicate_count = p.counts.duplicate_count + 1 };
      active_fault = duplicate;
    }
    else if ltb packet.sequence_number last.sequence_number
    then record p {
      counts = record p.counts { reorder_count = p.counts.reorder_count + 1 };
      active_fault = sequence_reorder;
    }
    else advance p last packet receive_ns

-- `assert self._latest is not None`
unfoldable pub same_session :
    ControllerProvider
    → Option ControllerPacket
    → ControllerPacket
    → ℕ
    → Result Error ControllerProvider
unfolding compare_sequence
same_session p none packet receive_ns = err assertion_failed
same_session p (some last) packet receive_ns = ok (compare_sequence p last packet receive_ns)

-- The part of `update` for a packet whose session is not retired.
unfoldable pub receive_live :
    ControllerProvider → Option ℕ → ControllerPacket → ℕ → Result Error ControllerProvider
unfolding same_session accept
receive_live p none packet receive_ns = ok (
    accept
      (record p {
        current_session = some packet.session_id;
        counts = record p.counts { session_count = 1 };
      })
      packet receive_ns initial_session)
receive_live p (some current) packet receive_ns =
    if packet.session_id == current
    then same_session p p.latest packet receive_ns
    else ok (
        accept
          (record p {
            retired_sessions = current ∷ p.retired_sessions;
            current_session = some packet.session_id;
            counts = record p.counts {
              new_session_count = p.counts.new_session_count + 1;
              session_count = p.counts.session_count + 1;
            };
          })
          packet receive_ns new_session)

-- What `update` does first with each packet.
abbrev pub counted : ControllerProvider → ControllerProvider
counted p = record p {
  sequence_gap = 0;
  source_interval_ns = none;
  source_pause = false;
  counts = record p.counts { packet_count = p.counts.packet_count + 1 };
}

-- `update`, from the count of the packet up to the snapshot that each of its branches returns.
unfoldable pub receive : ControllerProvider → ControllerPacket → ℕ → Result Error ControllerProvider
unfolding receive_live
receive p packet receive_ns =
    if contains packet.session_id p.retired_sessions
    then ok (
        let q = counted p in
        record q {
          counts = record q.counts {
            old_session_packet_count = q.counts.old_session_packet_count + 1;
          };
          active_fault = old_session_packet;
        })
    else receive_live (counted p) p.current_session packet receive_ns
