-- ===== src/Sequence/Laws.antt =====
-- What a `SequenceTracker` of src/teleoperation/sequence.py lets through.
use embodied_hand_lab.Prelude.{
  ℕ, ◌<◌, ◌≤◌, ◌≡◌, Option, none, some, List, [], ◌∷◌, arith, All, ltb, ltb→lt, if◌then◌else◌, ◌⊎◌,
  inl, inr, Bool-cases, Option-cases,
}
use embodied_hand_lab.Sequence.{SequenceTracker, observe_number, accepted}

-- `below last n`: nothing has been accepted, or the last accepted number is below `n`.
abbrev pub Below : Option ℕ → ℕ → Type 0
Below none n = Unit
Below (some k) n = k < n

-- Every number lies above the one before it, the first above `last`.
abbrev pub Ascending : Option ℕ → List ℕ → Type 0
Ascending last [] = Unit
Ascending last (n ∷ ns) = Below last n × Ascending (some n) ns

abbrev pub tracker : Option ℕ → SequenceTracker
tracker last = record { last_sequence = last }

accepted-some :
    (k n : ℕ) (ns : List ℕ)
    → accepted (tracker (some k)) (n ∷ ns)
      ≡ (if ltb k n then n ∷ accepted (tracker (some n)) ns else accepted (tracker (some k)) ns)
unfolding accepted observe_number
accepted-some k n ns = ground arith

accepted_after :
    (k n : ℕ) (ns : List ℕ)
    → Ascending (some n) (accepted (tracker (some n)) ns)
    → Ascending (some k) (accepted (tracker (some k)) ns)
    → Ascending (some k) (accepted (tracker (some k)) (n ∷ ns))
accepted_after k n ns fresh old =
    rw accepted-some
      (elim (Bool-cases (ltb k n)) [ inl e ↦ rw e (ltb→lt k n e, fresh) | inr e ↦ rw e old ])

-- The numbers that a client accepts ascend strictly, whatever was received and from whatever state.
pub accepted_numbers-Ascending :
    (t : SequenceTracker) (ns : List ℕ) → Ascending t.last_sequence (accepted t ns)
unfolding accepted observe_number
accepted_numbers-Ascending t [] = tt
accepted_numbers-Ascending t (n ∷ ns) = elim (Option-cases t.last_sequence) [
  | inl e ↦ rw e (tt, accepted_numbers-Ascending (tracker (some n)) ns)
  | inr (k, e) ↦ rw e (
      accepted_after k n ns (accepted_numbers-Ascending (tracker (some n)) ns)
        (accepted_numbers-Ascending (tracker (some k)) ns))
]

-- Some number of the list is `n`.
abbrev pub Has : ℕ → List ℕ → Type 0
Has n [] = ⊥
Has n (m ∷ ms) = (m ≡ n) ⊎ Has n ms

-- Every number that was received is at most the last accepted one, which was itself received or
-- was the last one before: nothing newer is ever lost.
abbrev pub Covers : Option ℕ → ℕ → Type 0
Covers none n = ⊥
Covers (some k) n = n ≤ k

-- `last` after the messages `ns`.
pub final : SequenceTracker → List ℕ → SequenceTracker
final t [] = t
final t (n ∷ ns) = final (observe_number t n).0 ns

Covers-observe : (t : SequenceTracker) (n : ℕ) → Covers (observe_number t n).0.last_sequence n
unfolding observe_number
Covers-observe t n = ground arith

Covers-keep :
    (t : SequenceTracker) (m n : ℕ)
    → Covers t.last_sequence m
    → Covers (observe_number t n).0.last_sequence m
unfolding observe_number
Covers-keep t m n h = ground arith

Covers-final :
    (t : SequenceTracker) (m : ℕ) (ns : List ℕ)
    → Covers t.last_sequence m
    → Covers (final t ns).last_sequence m
unfolding final
Covers-final t m [] h = h
Covers-final t m (n ∷ ns) h = Covers-final (observe_number t n).0 m ns (Covers-keep t m n h)

-- After any messages the tracker's number is at least each number that was received, so no message
-- newer than all accepted ones is refused.
pub final-Covers :
    (t : SequenceTracker) (ns : List ℕ) → All (λ n. Covers (final t ns).last_sequence n) ns
unfolding final
final-Covers t [] = tt
final-Covers t (n ∷ ns) = (Covers-final t' n ns (Covers-observe t n), final-Covers t' ns)
  where
    t' : SequenceTracker
    t' = (observe_number t n).0
