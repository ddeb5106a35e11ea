-- ===== src/Clutch.antt =====
-- src/motion_input/clutch.py: samples, and the analog trigger with hysteresis that both clutch
-- machines hold. `Clutch.Arm` and `Clutch.Hand` are the machines, the other children are proofs.
-- Analog values and thresholds are doubles between 0 and 1, so natural multiples of 2 ^ -1074
-- (`Float`); readings of the monotonic clock are natural numbers.
pub mod Trigger
pub mod Log
pub mod Arm
pub mod Hand
use embodied_hand_lab.Prelude.{
  ℕ, ◌+◌, Bool, true, false, ◌&&◌, Option, none, some, String, Result, ok, err, leb, ◌==◌,
  if◌then◌else◌, is_true, is_false,
}
use embodied_hand_lab.Prelude.Int.{ℤ, pos, negsuc}
use embodied_hand_lab.Float.{Float, finite, infinity, minus_infinity, nan, units_one}

pub data Error : Type 0 where
  bad_value bad_timestamp bad_thresholds out_of_sequence not_started : Error

-- A value that passed `AnalogClutchSample.__post_init__`.
pub record AnalogClutchSample : Type 0 where
  pub value : ℕ
  pub host_receive_monotonic_ns : ℕ
  pub sequence_number : ℕ
  pub valid : Bool
  pub source_timestamp_ns : Option ℤ

-- A double that is finite and in [0, 1], in units of 2 ^ -1074.
unfoldable pub unit_interval : Float → Option ℕ
unit_interval (finite (pos n)) = if leb n units_one then some n else none
unit_interval (finite (negsuc n)) = none
unit_interval infinity = none
unit_interval minus_infinity = none
unit_interval nan = none

unfoldable pub natural : ℤ → Option ℕ
natural (pos n) = some n
natural (negsuc n) = none

-- The constructor `AnalogClutchSample(...)`, with the `ValueError`s of `__post_init__`.
unfoldable pub make_sample : Float → ℤ → ℤ → Bool → Option ℤ → Result Error AnalogClutchSample
unfolding unit_interval natural
make_sample value host sequence valid source = elim (unit_interval value) [
  | none ↦ err bad_value
  | some v ↦ elim (natural host) [
    | none ↦ err bad_timestamp
    | some h ↦ elim (natural sequence) [
      | none ↦ err bad_timestamp
      | some s ↦ ok (record {
        value = v;
        host_receive_monotonic_ns = h;
        sequence_number = s;
        valid = valid;
        source_timestamp_ns = source;
      })
    ]
  ]
]

-- `AnalogClutchSample.fresh`; the difference is compared as a sum, so nothing is truncated.
unfoldable pub is_fresh : AnalogClutchSample → ℕ → ℕ → Bool
is_fresh s now_ns stale_after_ns =
    s.valid
    && (leb s.host_receive_monotonic_ns now_ns
        && leb now_ns (s.host_receive_monotonic_ns + stale_after_ns))

pub record HysteresisObservation : Type 0 where
  pub pressed : Option Bool
  pub rising_edge : Bool
  pub falling_edge : Bool
  pub released_observed : Bool
  pub new_sample : Bool
  pub valid : Bool

pub record AnalogHoldToRun : Type 0 where
  pub pressed_at : ℕ
  pub released_at : ℕ
  pub pressed : Option Bool
  pub released_observed : Bool
  pub last_sequence : Option ℕ

-- `AnalogHoldToRun.__init__`, which wants 0 <= release < press <= 1.
unfoldable pub make_trigger : Float → Float → Result Error AnalogHoldToRun
unfolding unit_interval
make_trigger pressed_at released_at = elim (unit_interval pressed_at) [
  | none ↦ err bad_thresholds
  | some p ↦ elim (unit_interval released_at) [
    | none ↦ err bad_thresholds
    | some r ↦
        if leb p r
        then err bad_thresholds
        else ok (record {
          pressed_at = p;
          released_at = r;
          pressed = none;
          released_observed = false;
          last_sequence = none;
        })
  ]
]

unfoldable pub require_release : AnalogHoldToRun → AnalogHoldToRun
require_release t = record t { pressed = none; released_observed = false; last_sequence = none }

-- `sample.sequence_number == self._last_sequence`
abbrev pub same_sequence : ℕ → Option ℕ → Bool
same_sequence n none = false
same_sequence n (some m) = n == m

-- The thresholds: the band between them keeps the state.
unfoldable pub debounce : AnalogHoldToRun → ℕ → AnalogHoldToRun
debounce t v =
    if leb t.pressed_at v
    then record t { pressed = some true }
    else if leb v t.released_at
    then record t { pressed = some false; released_observed = true }
    else t

-- What `observe` returns before it looks at the value.
abbrev pub unchanged : AnalogHoldToRun → Bool → HysteresisObservation
unchanged t valid = record {
  pressed = t.pressed;
  rising_edge = false;
  falling_edge = false;
  released_observed = t.released_observed;
  new_sample = false;
  valid = valid;
}

-- `AnalogHoldToRun.observe`
unfoldable pub observe :
    AnalogHoldToRun → AnalogClutchSample → Bool → AnalogHoldToRun × HysteresisObservation
unfolding debounce
observe t sample fresh =
    let t' = debounce (record t { last_sequence = some sample.sequence_number }) sample.value in
    if fresh
    then if same_sequence sample.sequence_number t.last_sequence then (t, unchanged t true) else (
      t',
      record {
        pressed = t'.pressed;
        rising_edge = t'.released_observed && (is_false t.pressed && is_true t'.pressed);
        falling_edge = is_true t.pressed && is_false t'.pressed;
        released_observed = t'.released_observed;
        new_sample = true;
        valid = true;
      },
    )
    else (t, unchanged t false)

-- `ClutchAction`
pub data ClutchAction : Type 0 where
  freeze capture_arm_reference start_hand_reacquisition update : ClutchAction

pub record ClutchTransition : Type 0 where
  pub timestamp_monotonic_ns : ℕ
  pub previous : String
  pub current : String
  pub reason : String

pub record ClutchFault : Type 0 where
  pub timestamp_monotonic_ns : ℕ
  pub channel : String
  pub reason : String
