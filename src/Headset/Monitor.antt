-- ===== src/Headset/Monitor.antt =====
-- src/motion_input/controller_provider.py: `TransportClutchMonitor`, the two hysteresis channels of
-- the arm and of the hand behind the frames of the adapter.
use embodied_hand_lab.Prelude.{
  ℕ, Bool, true, false, not, ◌&&◌, ◌||◌, none, ok, Result, ◌>>=◌, ◌≡◌, arith, is_true,
  if◌then◌else◌,
}
use embodied_hand_lab.Float.{Float}
use embodied_hand_lab.Clutch.{
  AnalogHoldToRun, HysteresisObservation, Error, make_trigger, observe, require_release, is_fresh,
}
use embodied_hand_lab.Headset.Adapter.{ControllerClutchFrame}

pub record TransportClutchSnapshot : Type 0 where
  pub arm_engaged : Bool
  pub hand_engaged : Bool
  pub arm_release_required : Bool
  pub hand_release_required : Bool
  pub arm_rising_edge : Bool
  pub arm_falling_edge : Bool
  pub hand_rising_edge : Bool
  pub hand_falling_edge : Bool

pub record TransportClutchMonitor : Type 0 where
  pub arm : AnalogHoldToRun
  pub hand : AnalogHoldToRun
  pub invalid_latched : Bool

-- `__init__`
unfoldable pub make_monitor : Float → Float → Result Error TransportClutchMonitor
make_monitor pressed_at released_at = do
  arm ← make_trigger pressed_at released_at
  hand ← make_trigger pressed_at released_at
  ok (record { arm = arm; hand = hand; invalid_latched = false })

-- `bool(observation.pressed and observation.released_observed)`
abbrev pub engaged : HysteresisObservation → Bool
engaged o = is_true o.pressed && o.released_observed

-- `_transport_snapshot`
unfoldable pub transport_snapshot :
    HysteresisObservation → HysteresisObservation → Bool → TransportClutchSnapshot
transport_snapshot arm hand shared = record {
  arm_engaged = engaged arm;
  hand_engaged = engaged hand;
  arm_release_required = shared || not arm.released_observed;
  hand_release_required = shared || not hand.released_observed;
  arm_rising_edge = arm.rising_edge;
  arm_falling_edge = arm.falling_edge;
  hand_rising_edge = hand.rising_edge;
  hand_falling_edge = hand.falling_edge;
}

-- The release that `update` demands of both channels when the inputs become invalid, and the latch.
unfoldable pub latch_invalid : TransportClutchMonitor → Bool → TransportClutchMonitor
latch_invalid m inputs_valid =
    if inputs_valid
    then record m { invalid_latched = false }
    else if m.invalid_latched
    then m
    else record {
      arm = require_release m.arm;
      hand = require_release m.hand;
      invalid_latched = true;
    }

-- `update`
unfoldable pub update :
    TransportClutchMonitor
    → ControllerClutchFrame
    → ℕ
    → ℕ
    → TransportClutchMonitor × TransportClutchSnapshot
unfolding latch_invalid
update m frame now_ns stale_after_ns =
    let inputs_valid = frame.controller_valid && not frame.shared_release_required in
    let m' = latch_invalid m inputs_valid in
    let (arm, arm_obs) =
      observe m'.arm frame.index (inputs_valid && is_fresh frame.index now_ns stale_after_ns) in
    let (hand, hand_obs) =
      observe m'.hand frame.grip (inputs_valid && is_fresh frame.grip now_ns stale_after_ns) in
    (
      record m' { arm = arm; hand = hand },
      transport_snapshot arm_obs hand_obs frame.shared_release_required,
    )

-- While the inputs are invalid, neither channel is pressed.
pub record IsValid (m : TransportClutchMonitor) : Type 0 where
  pub arm_off : m.invalid_latched ≡ true → m.arm.pressed ≡ none
  pub hand_off : m.invalid_latched ≡ true → m.hand.pressed ≡ none

module _ (m : TransportClutchMonitor) (frame : ControllerClutchFrame) (now_ns stale_after_ns : ℕ)
    (v : IsValid m) where
  pub update-IsValid : IsValid (update m frame now_ns stale_after_ns).0
  unfolding update latch_invalid observe require_release
  update-IsValid = ground (arith, v.arm_off, v.hand_off)

  -- With an invalid frame neither channel is engaged.
  pub update_invalid :
      frame.shared_release_required ≡ true
      → let s = (update m frame now_ns stale_after_ns).1 in
        (s.arm_engaged ≡ false) × (s.hand_engaged ≡ false)
  unfolding update latch_invalid observe require_release transport_snapshot
  update_invalid h = ground (arith, v.arm_off, v.hand_off)
