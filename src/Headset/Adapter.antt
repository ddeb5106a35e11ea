-- ===== src/Headset/Adapter.antt =====
-- src/motion_input/controller_provider.py: `ControllerClutchAdapter`, which turns the state of the
-- provider into a sample for each hysteresis channel and demands a release after a fault or a
-- change of the session.
use embodied_hand_lab.Prelude.{
  ℕ, Bool, true, false, not, ◌&&◌, ◌||◌, Option, none, some, Result, ok, err, leb, ltb, ◌==◌,
  if◌then◌else◌,
}
use embodied_hand_lab.Prelude.Int.{pos}
use embodied_hand_lab.Float.{Float, units_one}
use embodied_hand_lab.Clutch.{AnalogClutchSample, Error, bad_thresholds, unit_interval}
use embodied_hand_lab.Headset.Samples.{ControllerPacket, ControllerProviderState}

pub record ControllerClutchFrame : Type 0 where
  pub index : AnalogClutchSample
  pub grip : AnalogClutchSample
  pub controller_valid : Bool
  pub shared_release_required : Bool

pub record ControllerClutchAdapter : Type 0 where
  pub released_at : ℕ
  pub shared_release_required : Bool
  pub session_id : Option ℕ

-- `__init__`: `0.0 <= released_at < 1.0`
unfoldable pub make_adapter : Float → Result Error ControllerClutchAdapter
unfolding unit_interval
make_adapter released_at = elim (unit_interval released_at) [
  | none ↦ err bad_thresholds
  | some r ↦
      if ltb r units_one
      then ok (record { released_at = r; shared_release_required = true; session_id = none })
      else err bad_thresholds
]

-- The sample of a trigger at `value` in a packet, which `__post_init__` accepts as it stands.
abbrev pub sample_of : ControllerPacket → ℕ → ℕ → Bool → AnalogClutchSample
sample_of packet value received valid = record {
  value = value;
  host_receive_monotonic_ns = received;
  sequence_number = packet.sequence_number;
  valid = valid;
  source_timestamp_ns = some (pos packet.source_timestamp_ns);
}

-- `AnalogClutchSample(0.0, 0, 0, valid=False)`
abbrev pub invalid_sample : AnalogClutchSample
invalid_sample = record {
  value = 0;
  host_receive_monotonic_ns = 0;
  sequence_number = 0;
  valid = false;
  source_timestamp_ns = none;
}

-- Both triggers are at or below the release threshold.
abbrev pub both_released : ℕ → ControllerPacket → Bool
both_released released_at packet =
    leb packet.index_trigger released_at && leb packet.grip_trigger released_at

-- `packet.session_id == self._session_id`
abbrev pub same_session : ControllerPacket → Option ℕ → Bool
same_session packet none = false
same_session packet (some s) = packet.session_id == s

-- Whether a release is demanded after a packet.
unfoldable pub required_after : ControllerClutchAdapter → ControllerPacket → Bool → Bool
required_after a packet valid =
    let required = not (same_session packet a.session_id) || a.shared_release_required in
    if valid then if both_released a.released_at packet then false else required else true

-- The part of `samples` for a state with a packet.
unfoldable pub packet_samples :
    ControllerClutchAdapter
    → ControllerPacket
    → ℕ
    → Bool
    → ControllerClutchAdapter × ControllerClutchFrame
unfolding required_after
packet_samples a packet received valid =
    let required = required_after a packet valid in
    (
      record a { shared_release_required = required; session_id = some packet.session_id },
      record {
        index = sample_of packet packet.index_trigger received (valid && not required);
        grip = sample_of packet packet.grip_trigger received (valid && not required);
        controller_valid = valid;
        shared_release_required = required;
      },
    )

-- The part of `samples` for a state with no packet.
unfoldable pub no_samples :
    ControllerClutchAdapter → ControllerClutchAdapter × ControllerClutchFrame
no_samples a = (
  record a { shared_release_required = true },
  record {
    index = invalid_sample;
    grip = invalid_sample;
    controller_valid = false;
    shared_release_required = true;
  },
)

unfoldable pub samples_from :
    ControllerClutchAdapter
    → Option ControllerPacket
    → Option ℕ
    → Bool
    → ControllerClutchAdapter × ControllerClutchFrame
unfolding packet_samples no_samples
samples_from a (some packet) (some received) valid = packet_samples a packet received valid
samples_from a none received valid = no_samples a
samples_from a (some packet) none valid = no_samples a

-- `samples`
unfoldable pub samples :
    ControllerClutchAdapter
    → ControllerProviderState
    → ControllerClutchAdapter × ControllerClutchFrame
unfolding samples_from
samples a s = samples_from a s.latest s.host_receive_monotonic_ns s.controller_valid
