-- ===== src/Lifecycle/Invariant.antt =====
-- The history of a lifecycle machine of src/teleoperation/state_machine.py.
use embodied_hand_lab.Prelude.{
  ◌≡◌, refl, Bool, true, false, String, List, [], ◌∷◌, ◌++◌, ok, err, arith, Bool-cases, ◌⊎◌, inl,
  inr, ◌||◌,
}
use embodied_hand_lab.Prelude.Int.{ℤ, pos, ◌≤ℤ◌, ltbℤ}
use embodied_hand_lab.Lifecycle.{
  ControllerState, disconnected, armed, edg_ready, holding, running, allowed, Transition,
  LifecycleMachine, Error, new, transition, run,
}

-- The history is an unbroken walk of allowed transitions from `a` to `b`.
abbrev pub Walk : ControllerState → List Transition → ControllerState → Type 0
Walk a [] b = a ≡ b
Walk a (t ∷ ts) b = (t.previous ≡ a) × (allowed t.previous t.current ≡ true) × Walk t.current ts b

Walk-append :
    (a : ControllerState) (ts : List Transition) (b : ControllerState) (t : Transition)
    → Walk a ts b
    → t.previous ≡ b
    → allowed t.previous t.current ≡ true
    → Walk a (ts ++ t ∷ []) t.current
Walk-append a [] b t w p h = (ground arith, h, refl)
Walk-append a (s ∷ ts) b t w p h = (w.0, w.1, Walk-append s.current ts b t w.2 p h)

module _ (blank : String → Bool) where
  transition-Walk :
      (m : LifecycleMachine) (destination : ControllerState) (at : ℤ) (reason : String)
      → Walk disconnected m.history m.state
      → let m' = (transition blank m destination at reason).0 in
        Walk disconnected m'.history m'.state
  unfolding transition
  transition-Walk m destination at reason w = elim (Bool-cases (allowed m.state destination)) [
    | inr e ↦ rw e w
    | inl e ↦ rw e (elim (Bool-cases (ltbℤ at (pos 0) || blank reason)) [
      | inl bad ↦ rw bad w
      | inr good ↦ rw good (Walk-append disconnected m.history m.state _ w refl e)
    ])
  ]

  run-Walk_from :
      (m : LifecycleMachine) (requests : List (ControllerState × ℤ × String))
      → Walk disconnected m.history m.state
      → let m' = run blank m requests in Walk disconnected m'.history m'.state
  unfolding run
  run-Walk_from m [] w = w
  run-Walk_from m ((d, at, reason) ∷ rest) w =
      run-Walk_from (transition blank m d at reason).0 rest (transition-Walk m d at reason w)

  -- Whatever a caller requests of a new machine, its history is an unbroken walk of allowed
  -- transitions from DISCONNECTED to its present state.
  pub run-Walk :
      (requests : List (ControllerState × ℤ × String))
      → Walk disconnected (run blank new requests).history (run blank new requests).state
  unfolding new
  run-Walk requests = run-Walk_from new requests refl

  -- A request succeeds exactly if its edge is in the table, its time is not negative and its reason
  -- is not blank: it then moves the machine to the destination and adds one entry to the history. A
  -- request that raises leaves the machine as it was.
  pub transition_granted_iff :
      (m : LifecycleMachine) (destination : ControllerState) (at : ℤ) (reason : String)
      → let (m', r) = transition blank m destination at reason in
        (((allowed m.state destination ≡ true) × (pos 0 ≤ℤ at) × (blank reason ≡ false))
          → (m'.state ≡ destination)
            × (m'.history
                ≡ m.history
                  ++ record {
                    previous = m.state;
                    current = destination;
                    monotonic_ns = at;
                    reason = reason;
                  }
                    ∷ []))
        × ((e : Error) → r ≡ err e → m' ≡ m)
        × ((item : Transition)
            → r ≡ ok item
            → (allowed m.state destination ≡ true) × (pos 0 ≤ℤ at) × (blank reason ≡ false))
  unfolding transition
  transition_granted_iff m destination at reason =
      (λ h. ground arith, λ e h. ground arith, λ item h. ground arith)

-- Some entry of the history enters `s`.
abbrev pub Enters : ControllerState → List Transition → Type 0
Enters s [] = ⊥
Enters s (t ∷ ts) = (t.current ≡ s) ⊎ Enters s ts

abbrev pub has_edg : ControllerState → Bool
has_edg edg_ready = true
has_edg holding = true
has_edg running = true
has_edg _ = false

edge_to_edg :
    (a b : ControllerState)
    → allowed a b ≡ true
    → has_edg b ≡ true
    → has_edg a ≡ false
    → (b ≡ edg_ready) × (a ≡ armed)
unfolding allowed
edge_to_edg a b e p q = ground arith

Walk-has_edg :
    (a : ControllerState) (ts : List Transition) (b : ControllerState)
    → Walk a ts b
    → has_edg a ≡ false
    → has_edg b ≡ true
    → Enters edg_ready ts
Walk-has_edg a [] b w p q = cc w
Walk-has_edg a (t ∷ ts) b w p q = elim (Bool-cases (has_edg t.current)) [
  | inl e ↦ inl (edge_to_edg t.previous t.current w.1 e (rw w.0 p)).0
  | inr e ↦ inr (Walk-has_edg t.current ts b w.2 e q)
]

-- A new machine that is RUNNING, whatever was requested of it, has entered EDG_READY.
pub running_needs_edg_ready :
    (blank : String → Bool) (requests : List (ControllerState × ℤ × String))
    → (run blank new requests).state ≡ running
    → Enters edg_ready (run blank new requests).history
running_needs_edg_ready blank requests h =
    Walk-has_edg disconnected _ _ (run-Walk blank requests) refl (rw h)
