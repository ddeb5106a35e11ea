-- ===== src/Teleoperation/Backend/Ownership.antt =====
-- What src/teleoperation/jaka/fake_backend.py guarantees of its owner and of its state.
use embodied_hand_lab.Prelude.{
  ℕ, ◌≡◌, ◌≢◌, ◌⊎◌, true, some, List, [], ◌∷◌, arith, inl, inr, refl, err, length, All, ◌++◌,
}
use embodied_hand_lab.Teleoperation.Backend.{
  FakeJakaBackend, Call, connect_call, read_state_call, enter_edg_call, leave_edg_call,
  disconnect_call, command_call, apply, run, connect, read_state, enter_edg, leave_edg, disconnect,
  command_joints, not_owner,
}

module _ {J : Type 0} where
  -- The thread of a call.
  abbrev pub caller : Call J → ℕ
  caller (connect_call t) = t
  caller (read_state_call t) = t
  caller (enter_edg_call t) = t
  caller (leave_edg_call t) = t
  caller (disconnect_call t) = t
  caller (command_call t n js) = t

  apply_foreign :
      (b : FakeJakaBackend J) (x : Call J) (owner : ℕ)
      → b.owner_thread ≡ some owner
      → caller x ≢ owner
      → apply b x ≡ (b, err not_owner)
  unfolding apply connect read_state enter_edg leave_edg disconnect command_joints
  apply_foreign b x owner h n = ground arith

  -- Once a thread owns the backend, calls of other threads do nothing to it, however many.
  pub run_foreign :
      (b : FakeJakaBackend J) (xs : List (Call J)) (owner : ℕ)
      → b.owner_thread ≡ some owner
      → All (λ x. caller x ≢ owner) xs
      → run b xs ≡ b
  unfolding run
  run_foreign b [] owner h n = refl
  run_foreign b (x ∷ xs) owner h n =
      rw (apply_foreign b x owner h n.0) (run_foreign b xs owner h n.1)

  -- EDG is active only on a connected backend, and each recorded command has six joints.
  pub record IsValid (b : FakeJakaBackend J) : Type 0 where
    pub active : b.edg_active ≡ true → b.connected ≡ true
    pub six : All (λ p. length p.1 ≡ 6) b.commands

  six-append :
      (cs : List (ℕ × List J)) (p : ℕ × List J)
      → All (λ q. length q.1 ≡ 6) cs
      → length p.1 ≡ 6
      → All (λ q. length q.1 ≡ 6) (cs ++ p ∷ [])
  six-append [] p h k = (k, tt)
  six-append (c ∷ cs) p h k = (h.0, six-append cs p h.1 k)

  command-six :
      (b : FakeJakaBackend J) (t n : ℕ) (js : List J)
      → ((command_joints b t n js).0.commands ≡ b.commands)
        ⊎ (((command_joints b t n js).0.commands ≡ b.commands ++ (n, js) ∷ []) × (length js ≡ 6))
  unfolding command_joints
  command-six b t n js = ground arith

  command-edg :
      (b : FakeJakaBackend J) (t n : ℕ) (js : List J)
      → ((command_joints b t n js).0.edg_active ≡ b.edg_active)
        × ((command_joints b t n js).0.connected ≡ b.connected)
  unfolding command_joints
  command-edg b t n js = ground arith

  disconnect-edg :
      (b : FakeJakaBackend J) (t : ℕ)
      → (b.edg_active ≡ true → b.connected ≡ true)
      → ((disconnect b t).0.edg_active ≡ true → (disconnect b t).0.connected ≡ true)
        × ((disconnect b t).0.commands ≡ b.commands)
  unfolding disconnect
  disconnect-edg b t h = ground arith

  apply-IsValid : (b : FakeJakaBackend J) (x : Call J) → IsValid b → IsValid (apply b x).0
  unfolding apply connect read_state enter_edg leave_edg
  apply-IsValid b (connect_call t) h = ground arith
  apply-IsValid b (read_state_call t) h = ground arith
  apply-IsValid b (enter_edg_call t) h = ground arith
  apply-IsValid b (leave_edg_call t) h = ground arith
  apply-IsValid b (disconnect_call t) h = record {
    active = (disconnect-edg b t h.active).0;
    six = rw (disconnect-edg b t h.active).1 h.six;
  }
  apply-IsValid b (command_call t n js) h = record {
    active = ground (arith, h.active, command-edg b t n js);
    six = elim (command-six b t n js) [
      | inl same ↦ rw same h.six
      | inr (added, six) ↦ rw added (six-append b.commands (n, js) h.six six)
    ];
  }

  -- If EDG is active only on a connected backend and every recorded command has six joints, as at the
  -- constructor's defaults, then both stay so, whatever methods are called, by whichever threads and
  -- with whichever operations failing.
  pub backend_run-IsValid :
      (b : FakeJakaBackend J) (xs : List (Call J)) → IsValid b → IsValid (run b xs)
  unfolding run
  backend_run-IsValid b [] h = h
  backend_run-IsValid b (x ∷ xs) h = backend_run-IsValid (apply b x).0 xs (apply-IsValid b x h)
