-- ===== src/Headset/Provider.antt =====
-- src/motion_input/controller_provider.py: the methods of `ControllerProvider`, the state of the host for
-- the CTRL samples of the left controller; `Reception` has what it does with a packet. The integers that callers pass as times may be negative, and are
-- refused then.
pub mod Invariant
pub mod Forward
pub mod Sessions
pub mod Validity
use Prim.Native.Char.{code}
use embodied_hand_lab.Prelude.{
  ℕ, ◌+◌, ◌-◌, Bool, true, false, not, ◌&&◌, ◌||◌, Option, none, some, List, [], ◌∷◌, ◌++◌, String,
  Result, ok, err, ◌>>=◌, leb, ltb, ◌==◌, is_none, if◌then◌else◌,
}
use embodied_hand_lab.Prelude.Int.{ℤ, pos, negsuc, sub_ℕ, ltbℤ}
use embodied_hand_lab.Headset.Samples.{
  Error, bad_timestamp, reason_required, assertion_failed, ControllerPacket, facts_valid, Fault,
  no_sample, stale, old_session_packet, initial_session, new_session, duplicate, sequence_reorder,
  sequence_gap, source_timestamp_reorder, source_pause, no_fault, forced, Counts, no_counts,
  ControllerProviderState, invalid_reason_of,
}
pub use embodied_hand_lab.Headset.Reception.{
  ControllerProvider, or_forced, forced_or, contains, counted, or_else,
}
unfoldable pub use embodied_hand_lab.Headset.Reception.{
  new, accept, advance, compare_sequence, same_session, receive_live, receive,
}

-- Whether the latest sample is stale, and its age: `max(0, now - received)`.
unfoldable pub stale_at : ControllerProvider → ℕ → Bool
stale_at p now_ns = if is_none p.latest then true else elim p.host_receive_ns [
  | none ↦ true
  | some received ↦ ltb now_ns received || ltb p.stale_after_ns (now_ns - received)
]

unfoldable pub age_at : ControllerProvider → ℕ → Option ℕ
age_at p now_ns =
    if is_none p.latest
    then none
    else elim p.host_receive_ns [ none ↦ none | some received ↦ some (now_ns - received) ]

-- The event that `snapshot` counts when the sample becomes stale.
unfoldable pub latch_stale : ControllerProvider → Bool → ControllerProvider
latch_stale p is_stale =
    if is_stale && not p.stale_latched
    then record p {
      counts = record p.counts { stale_event_count = p.counts.stale_event_count + 1 };
      stale_latched = true;
    }
    else p

abbrev pub latest_valid : Option ControllerPacket → Bool
latest_valid none = false
latest_valid (some p) = facts_valid p

-- The `ControllerProviderState` that `snapshot` returns.
unfoldable pub state_of : ControllerProvider → ℕ → ControllerProviderState
unfolding stale_at age_at invalid_reason_of facts_valid
state_of p now_ns =
    let is_stale = stale_at p now_ns in
    record {
      latest = p.latest;
      host_receive_monotonic_ns = p.host_receive_ns;
      sample_age_ns = age_at p now_ns;
      stale = is_stale;
      controller_valid = (latest_valid p.latest && is_none p.forced_invalid_reason) && not is_stale;
      invalid_reason = or_forced (invalid_reason_of p.latest is_stale) p.forced_invalid_reason;
      active_fault = if is_stale then stale else forced_or p.forced_invalid_reason p.active_fault;
      sequence_gap = p.sequence_gap;
      source_interval_ns = p.source_interval_ns;
      source_pause = p.source_pause;
      counts = p.counts;
    }

-- `snapshot`, at a time that is not negative.
unfoldable pub snapshot_at : ControllerProvider → ℕ → ControllerProvider × ControllerProviderState
unfolding latch_stale stale_at state_of
snapshot_at p now_ns = let p' = latch_stale p (stale_at p now_ns) in (p', state_of p' now_ns)

unfoldable pub natural_time : ℤ → Result Error ℕ
natural_time (pos n) = ok n
natural_time (negsuc n) = err bad_timestamp

unfoldable pub snapshot :
    ControllerProvider → ℤ → Result Error (ControllerProvider × ControllerProviderState)
unfolding natural_time snapshot_at
snapshot p now_ns = natural_time now_ns >>= λ now. ok (snapshot_at p now)

-- `update`, at a time that is not negative.
unfoldable pub update_at :
    ControllerProvider
    → ControllerPacket
    → ℕ
    → Result Error (ControllerProvider × ControllerProviderState)
unfolding receive snapshot_at
update_at p packet receive_ns = receive p packet receive_ns >>= λ q. ok (snapshot_at q receive_ns)

unfoldable pub update :
    ControllerProvider
    → ControllerPacket
    → ℤ
    → Result Error (ControllerProvider × ControllerProviderState)
unfolding natural_time update_at
update p packet receive_ns = natural_time receive_ns >>= update_at p packet

-- `str.isspace` of one character
unfoldable pub is_space : ℕ → Bool
is_space c =
    (leb 9 c && leb c 13)
    || ((leb 28 c && leb c 32)
        || ((c == 133)
            || ((c == 160)
                || ((c == 5760)
                    || ((leb 8192 c && leb c 8202)
                        || ((c == 8232)
                            || ((c == 8233) || ((c == 8239) || ((c == 8287) || (c == 12288))))))))))

-- `not reason.strip()`
unfoldable pub is_blank : String → Bool
unfolding is_space
is_blank String.[] = true
is_blank (String.◌∷◌ c s) = is_space (code c) && is_blank s

unfoldable pub invalidate : ControllerProvider → String → Result Error ControllerProvider
unfolding is_blank
invalidate p reason =
    if is_blank reason
    then err reason_required
    else ok (record p { active_fault = forced reason; forced_invalid_reason = some reason })

-- A call of a method. A `ValueError` leaves the provider as it is; the assertion never fails on a
-- valid provider.
pub data Call : Type 0 where
  update_call : ControllerPacket → ℤ → Call
  snapshot_call : ℤ → Call
  invalidate_call : String → Call

abbrev pub kept :
    ControllerProvider
    → Result Error (ControllerProvider × ControllerProviderState)
    → ControllerProvider
kept p (ok t) = t.0
kept p (err e) = p

abbrev pub kept_invalid : ControllerProvider → Result Error ControllerProvider → ControllerProvider
kept_invalid p (ok q) = q
kept_invalid p (err e) = p

unfoldable pub apply : ControllerProvider → Call → ControllerProvider
apply p (update_call packet ns) = kept p (update p packet ns)
apply p (snapshot_call ns) = kept p (snapshot p ns)
apply p (invalidate_call reason) = kept_invalid p (invalidate p reason)

unfoldable pub run : ControllerProvider → List Call → ControllerProvider
run p [] = p
run p (x ∷ xs) = run (apply p x) xs
