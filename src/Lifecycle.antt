-- ===== src/Lifecycle.antt =====
-- src/teleoperation/state_machine.py: the lifecycle of the arm controller, and the staleness action.
pub mod Invariant
pub mod Stale
use embodied_hand_lab.Prelude.{
  Bool, true, false, not, ◌||◌, String, List, [], ◌∷◌, ◌++◌, Result, ok, err, guard, ◌>>=◌, ◌>>◌,
  if◌then◌else◌,
}
use embodied_hand_lab.Prelude.Int.{ℤ, pos, ltbℤ}

-- `ControllerState` of teleoperation/contracts.py
pub data ControllerState : Type 0 where
  disconnected connecting connected armed edg_ready : ControllerState
  holding running controlled_stop fault shutdown : ControllerState

-- `destination in _TRANSITIONS[state]`
unfoldable pub allowed : ControllerState → ControllerState → Bool
allowed ControllerState.disconnected ControllerState.connecting = true
allowed ControllerState.disconnected ControllerState.shutdown = true
allowed ControllerState.connecting ControllerState.connected = true
allowed ControllerState.connecting ControllerState.fault = true
allowed ControllerState.connecting ControllerState.controlled_stop = true
allowed ControllerState.connected ControllerState.armed = true
allowed ControllerState.connected ControllerState.controlled_stop = true
allowed ControllerState.connected ControllerState.fault = true
allowed ControllerState.armed ControllerState.edg_ready = true
allowed ControllerState.armed ControllerState.controlled_stop = true
allowed ControllerState.armed ControllerState.fault = true
allowed ControllerState.edg_ready ControllerState.holding = true
allowed ControllerState.edg_ready ControllerState.controlled_stop = true
allowed ControllerState.edg_ready ControllerState.fault = true
allowed ControllerState.holding ControllerState.running = true
allowed ControllerState.holding ControllerState.controlled_stop = true
allowed ControllerState.holding ControllerState.fault = true
allowed ControllerState.running ControllerState.holding = true
allowed ControllerState.running ControllerState.controlled_stop = true
allowed ControllerState.running ControllerState.fault = true
allowed ControllerState.controlled_stop ControllerState.disconnected = true
allowed ControllerState.controlled_stop ControllerState.fault = true
allowed ControllerState.controlled_stop ControllerState.shutdown = true
allowed ControllerState.fault ControllerState.controlled_stop = true
allowed ControllerState.fault ControllerState.disconnected = true
allowed ControllerState.fault ControllerState.shutdown = true
allowed _ _ = false

pub record Transition : Type 0 where
  pub previous : ControllerState
  pub current : ControllerState
  pub monotonic_ns : ℤ
  pub reason : String

pub record LifecycleMachine : Type 0 where
  pub state : ControllerState
  pub history : List Transition

-- The two `ValueError`s of `transition`.
pub data Error : Type 0 where
  invalid_transition bad_timestamp_or_reason : Error

unfoldable pub new : LifecycleMachine
new = record { state = ControllerState.disconnected; history = [] }

-- `str.strip` of the reason, `blank reason` for `not reason.strip()`, is Python's.
module _ (blank : String → Bool) where
  -- The new machine beside what the call returns; a raise leaves the machine as it was.
  unfoldable pub transition :
      LifecycleMachine → ControllerState → ℤ → String → LifecycleMachine × Result Error Transition
  transition m destination monotonic_ns reason =
      let item : Transition = record {
        previous = m.state;
        current = destination;
        monotonic_ns = monotonic_ns;
        reason = reason;
      } in
      if not (allowed m.state destination)
      then (m, err invalid_transition)
      else if ltbℤ monotonic_ns (pos 0) || blank reason
      then (m, err bad_timestamp_or_reason)
      else (record m { state = destination; history = m.history ++ item ∷ [] }, ok item)

  -- A caller's requests, one after the other; a refused one is dropped.
  unfoldable pub run : LifecycleMachine → List (ControllerState × ℤ × String) → LifecycleMachine
  run m [] = m
  run m ((destination, monotonic_ns, reason) ∷ rest) =
      run (transition m destination monotonic_ns reason).0 rest
