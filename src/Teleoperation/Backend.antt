-- ===== src/Teleoperation/Backend.antt =====
-- `FakeJakaBackend` of src/teleoperation/jaka/fake_backend.py. The thread that calls and the set of
-- operations that fail are given; joint values are numbers of the caller's choice, as only their
-- count is looked at.
pub mod Ownership
use embodied_hand_lab.Prelude.{
  ℕ, ◌+◌, Bool, true, false, not, ◌&&◌, ◌||◌, Option, none, some, List, [], ◌∷◌, ◌++◌, Result, ok,
  err, if◌then◌else◌, ◌==◌, length, is_none,
}

-- The names that `_check` is given.
pub data Operation : Type 0 where
  connect_op read_state_op enter_edg_op command_joints_op leave_edg_op disconnect_op : Operation

pub data Error : Type 0 where
  not_owner injected already_connected disconnected invalid_edg_entry invalid_command : Error

-- An entry of `cleanup_events`.
pub data Cleanup : Type 0 where
  left_edg was_disconnected : Cleanup

pub record FakeJakaBackend (J : Type 0) : Type 0 where
  pub joint_position_rad : List J
  pub fail_operations : Operation → Bool
  pub connected : Bool
  pub edg_active : Bool
  pub commands : List (ℕ × List J)
  pub cleanup_events : List Cleanup
  pub owner_thread : Option ℕ
  pub state_sequence : ℕ

-- `self._owner_thread` after the first lines of `_check`
abbrev pub is_owner : ℕ → Option ℕ → Bool
is_owner thread none = true
is_owner thread (some owner) = thread == owner

module _ {J : Type 0} where
  -- `_check`
  unfoldable pub check :
      FakeJakaBackend J → ℕ → Operation → FakeJakaBackend J × Result Error (Unit {0})
  check b thread op =
      let owned = record b {
        owner_thread = if is_none b.owner_thread then some thread else b.owner_thread;
      } in
      if not (is_owner thread b.owner_thread)
      then (b, err not_owner)
      else if b.fail_operations op
      then (owned, err injected)
      else (owned, ok tt)

  -- A method: the check, then its body if the check passes.
  abbrev pub checked :
      FakeJakaBackend J × Result Error (Unit {0})
      → (FakeJakaBackend J → FakeJakaBackend J × Result Error (Unit {0}))
      → FakeJakaBackend J × Result Error (Unit {0})
  checked (b, err e) body = (b, err e)
  checked (b, ok _) body = body b

  unfoldable pub connect : FakeJakaBackend J → ℕ → FakeJakaBackend J × Result Error (Unit {0})
  unfolding check
  connect b thread = checked (check b thread connect_op) λ c.
      if c.connected then (c, err already_connected) else (record c { connected = true }, ok tt)

  -- The `RobotState` that is returned is made of fields of the backend and the clock.
  unfoldable pub read_state : FakeJakaBackend J → ℕ → FakeJakaBackend J × Result Error (Unit {0})
  unfolding check
  read_state b thread = checked (check b thread read_state_op) λ c.
      if not c.connected
      then (c, err disconnected)
      else (record c { state_sequence = c.state_sequence + 1 }, ok tt)

  unfoldable pub enter_edg : FakeJakaBackend J → ℕ → FakeJakaBackend J × Result Error (Unit {0})
  unfolding check
  enter_edg b thread = checked (check b thread enter_edg_op) λ c.
      if not c.connected || c.edg_active
      then (c, err invalid_edg_entry)
      else (record c { edg_active = true }, ok tt)

  unfoldable pub command_joints :
      FakeJakaBackend J → ℕ → ℕ → List J → FakeJakaBackend J × Result Error (Unit {0})
  unfolding check
  command_joints b thread sequence joints = checked (check b thread command_joints_op) λ c.
      if not c.edg_active || not (length joints == 6) then (c, err invalid_command) else (
        record c { joint_position_rad = joints; commands = c.commands ++ (sequence, joints) ∷ [] },
        ok tt,
      )

  unfoldable pub leave_edg : FakeJakaBackend J → ℕ → FakeJakaBackend J × Result Error (Unit {0})
  unfolding check
  leave_edg b thread = checked (check b thread leave_edg_op) λ c. (
    if c.edg_active
        then record c { edg_active = false; cleanup_events = c.cleanup_events ++ left_edg ∷ [] }
        else c,
    ok tt,
  )

  unfoldable pub disconnect : FakeJakaBackend J → ℕ → FakeJakaBackend J × Result Error (Unit {0})
  unfolding check leave_edg
  disconnect b thread = checked (check b thread disconnect_op) λ c.
      checked (leave_edg c thread) λ d. (
        if d.connected
            then record d {
              connected = false;
              cleanup_events = d.cleanup_events ++ was_disconnected ∷ [];
            }
            else d,
        ok tt,
      )

-- A call of a method, by a thread.
pub data Call (J : Type 0) : Type 0 where
  connect_call read_state_call enter_edg_call leave_edg_call disconnect_call : ℕ → Call J
  command_call : ℕ → ℕ → List J → Call J

module _ {J : Type 0} where
  unfoldable pub apply : FakeJakaBackend J → Call J → FakeJakaBackend J × Result Error (Unit {0})
  apply b (connect_call t) = connect b t
  apply b (read_state_call t) = read_state b t
  apply b (enter_edg_call t) = enter_edg b t
  apply b (leave_edg_call t) = leave_edg b t
  apply b (disconnect_call t) = disconnect b t
  apply b (command_call t n js) = command_joints b t n js

  unfoldable pub run : FakeJakaBackend J → List (Call J) → FakeJakaBackend J
  run b [] = b
  run b (x ∷ xs) = run (apply b x).0 xs
