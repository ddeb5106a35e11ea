-- ===== src/Headset/Provider/Invariant.antt =====
-- What always holds of a provider of src/motion_input/controller_provider.py: its fields agree on
-- the session, and its counters account for each packet.
use embodied_hand_lab.Prelude.{
  ℕ, ◌+◌, ◌≤◌, ◌≡◌, Bool, true, false, Option, none, some, List, [], ◌∷◌, Result, ok, err, arith,
  is_none, refl, length, String, inl, inr, Bool-cases, ◌==◌, ==_iff, ap, sym, ◌∙◌, ◌>>=◌,
}
use embodied_hand_lab.Prelude.Int.{pos, negsuc}
use embodied_hand_lab.Headset.Samples.{ControllerPacket, Error}
use embodied_hand_lab.Headset.Provider.{
  ControllerProvider, new, accept, advance, compare_sequence, same_session, receive_live, receive,
  counted, contains, latch_stale, snapshot_at, snapshot, update_at, update, invalidate, Call,
  update_call, snapshot_call, invalidate_call, apply, run, kept, kept_invalid, stale_at,
}

abbrev pub session_of : Option ControllerPacket → Option ℕ
session_of none = none
session_of (some l) = some l.session_id

-- The current session is retired.
abbrev pub is_retired : Option ℕ → List ℕ → Bool
is_retired none rs = false
is_retired (some s) rs = contains s rs

-- While a sample is not known to be stale, one more event may be counted.
abbrev pub unlatched : Bool → ℕ
unlatched true = 0
unlatched false = 1

-- The numbers of sessions and of changes of the session, by the current one.
abbrev pub Sessions : Option ℕ → ℕ → ℕ → Type 0
Sessions none count changes = (count ≡ 0) × (changes ≡ 0)
Sessions (some s) count changes = count ≡ changes + 1

-- The counters, when `pending` packets are counted and not yet handled.
pub record Accounts (pending : ℕ) (p : ControllerProvider) : Type 0 where
  pub packets :
      p.counts.packet_count
      ≡ p.counts.accepted_count + p.counts.duplicate_count + p.counts.reorder_count
        + p.counts.old_session_packet_count + pending
  pub sessions : Sessions p.current_session p.counts.session_count p.counts.new_session_count
  pub retired : length p.retired_sessions ≡ p.counts.new_session_count
  pub accepted : p.counts.session_count + p.counts.gap_event_count ≤ p.counts.accepted_count
  pub invalid : p.counts.invalid_count ≤ p.counts.accepted_count
  pub gaps : p.counts.gap_event_count ≤ p.counts.missing_sequence_count
  pub source : p.counts.source_pause_count + p.counts.source_reorder_count ≤ p.counts.accepted_count
  pub stale_events :
      p.counts.stale_event_count + unlatched p.stale_latched ≤ p.counts.accepted_count

pub record IsValid (pending : ℕ) (p : ControllerProvider) : Type 0 where
  pub session : session_of p.latest ≡ p.current_session
  pub received : is_none p.host_receive_ns ≡ is_none p.latest
  pub live : is_retired p.current_session p.retired_sessions ≡ false
  pub accounts : Accounts pending p

pub new-IsValid : (a b : ℕ) → IsValid 0 (new a b)
unfolding new
new-IsValid a b = record { session = refl; received = refl; live = refl; accounts = omega arith }

-- What a call that returns leaves behind.
abbrev pub Returns : {E A : Type 0} → (A → Type 0) → Result E A → Type 0
Returns P (ok a) = P a
Returns P (err e) = ⊥

module _ (p : ControllerProvider) (packet : ControllerPacket) (ns : ℕ) (v : IsValid 1 p) where
  module _ (last : ControllerPacket) (l : p.latest ≡ some last)
      (s : packet.session_id ≡ last.session_id) where
    advance-IsValid : IsValid 0 (advance p last packet ns)
    unfolding advance accept
    advance-IsValid = record {
      session = cc (v.session);
      received = refl;
      live = v.live;
      accounts = ground arith;
    }

    compare_sequence-IsValid : IsValid 0 (compare_sequence p last packet ns)
    unfolding compare_sequence
    compare_sequence-IsValid = ground (arith, advance-IsValid)

  same_session-IsValid :
      (latest : Option ControllerPacket)
      → p.latest ≡ latest
      → p.current_session ≡ some packet.session_id
      → Returns (IsValid 0) (same_session p latest packet ns)
  unfolding same_session
  same_session-IsValid none l c = cc (v.session)
  same_session-IsValid (some last) l c = compare_sequence-IsValid last l (ground (arith, v.session))

  receive_live-IsValid :
      (current : Option ℕ)
      → p.current_session ≡ current
      → contains packet.session_id p.retired_sessions ≡ false
      → Returns (IsValid 0) (receive_live p current packet ns)
  unfolding receive_live accept
  receive_live-IsValid none c n =
      let counts = rw c at (v.accounts.sessions) in
      record { session = refl; received = refl; live = n; accounts = ground arith }
  receive_live-IsValid (some s) c n =
      let counts = rw c at (v.accounts.sessions) in
      elim (Bool-cases (packet.session_id == s)) [
        | inl e ↦ rw e (
            same_session-IsValid p.latest refl
              (c ∙ ap some (sym ((==_iff packet.session_id s).0 e))))
        | inr e ↦
            rw e (record {
              session = refl;
              received = refl;
              live = rw (e, n);
              accounts = ground arith;
            })
      ]

-- From a valid provider the assertion of `update` never fails, and what each packet leaves is valid.
pub receive-IsValid :
    (p : ControllerProvider) (packet : ControllerPacket) (ns : ℕ)
    → IsValid 0 p
    → Returns (IsValid 0) (receive p packet ns)
unfolding receive
receive-IsValid p packet ns v = elim (Bool-cases (contains packet.session_id p.retired_sessions)) [
  | inl e ↦ rw e (record {
    session = v.session;
    received = v.received;
    live = v.live;
    accounts = ground arith;
  })
  | inr e ↦ rw e (
      receive_live-IsValid (counted p) packet ns
        (record {
          session = v.session;
          received = v.received;
          live = v.live;
          accounts = ground arith;
        })
        p.current_session refl e)
]

latch_stale-IsValid :
    (p : ControllerProvider) (b : Bool) → IsValid 0 p → IsValid 0 (latch_stale p b)
unfolding latch_stale
latch_stale-IsValid p b v = ground arith

invalidate-IsValid :
    (p : ControllerProvider) (reason : String)
    → IsValid 0 p
    → IsValid 0 (kept_invalid p (invalidate p reason))
unfolding invalidate
invalidate-IsValid p reason v = ground arith

update_kept-IsValid :
    (p : ControllerProvider) (ns : ℕ) (r : Result Error ControllerProvider)
    → Returns (IsValid 0) r
    → IsValid 0 (kept p (r >>= λ q. ok (snapshot_at q ns)))
unfolding snapshot_at
update_kept-IsValid p ns (ok q) v = latch_stale-IsValid q (stale_at q ns) v
update_kept-IsValid p ns (err e) v = absurd v

pub apply-IsValid : (p : ControllerProvider) (x : Call) → IsValid 0 p → IsValid 0 (apply p x)
unfolding apply update snapshot update_at snapshot_at
apply-IsValid p (update_call packet (pos ns)) v =
    update_kept-IsValid p ns (receive p packet ns) (receive-IsValid p packet ns v)
apply-IsValid p (update_call packet (negsuc ns)) v = v
apply-IsValid p (snapshot_call (pos ns)) v = latch_stale-IsValid p (stale_at p ns) v
apply-IsValid p (snapshot_call (negsuc ns)) v = v
apply-IsValid p (invalidate_call reason) v = invalidate-IsValid p reason v

run-IsValid : (p : ControllerProvider) (xs : List Call) → IsValid 0 p → IsValid 0 (run p xs)
unfolding run
run-IsValid p [] v = v
run-IsValid p (x ∷ xs) v = run-IsValid (apply p x) xs (apply-IsValid p x v)

-- After any calls of a provider that the constructor made, whatever they raise: each packet that was
-- counted is counted once more, as accepted, as a duplicate, as out of order or as of an old
-- session; the sessions are the changes of the session and the first one, and each change retired
-- one; the accepted packets are at least as many as the sessions and the gaps together, as the
-- packets that are not valid, as the pauses and the steps back of the source together, and as the
-- events of staleness; no gap is without a missing number. The latest packet is one of the current session, which is not retired.
pub provider_run-IsValid :
    (stale_after_ns source_pause_after_ns : ℕ) (xs : List Call)
    → IsValid 0 (run (new stale_after_ns source_pause_after_ns) xs)
provider_run-IsValid a b xs = run-IsValid (new a b) xs (new-IsValid a b)
