-- ===== src/Clutch/Trigger.antt =====
-- What the analog trigger of src/motion_input/clutch.py guarantees.
use embodied_hand_lab.Prelude.{
  ℕ, ◌≤◌, ◌<◌, ◌≡◌, Bool, true, false, some, ok, arith, is_false, List, [], ◌∷◌, All, refl, ◌∙◌,
  ◌↔◌,
}
use embodied_hand_lab.Float.{Float}
use embodied_hand_lab.Clutch.{
  AnalogClutchSample, AnalogHoldToRun, make_trigger, observe, require_release,
}

-- What holds of a trigger at any time.
pub record IsValid (t : AnalogHoldToRun) : Type 0 where
  pub ordered : t.released_at < t.pressed_at
  pub false_released : t.pressed ≡ some false → t.released_observed ≡ true

-- The constructor gives a valid trigger.
pub make_trigger-IsValid : (p r : Float) {t : AnalogHoldToRun} → make_trigger p r ≡ ok t → IsValid t
unfolding make_trigger
make_trigger-IsValid p r h = ground arith

pub observe-IsValid :
    (t : AnalogHoldToRun) (s : AnalogClutchSample) (fresh : Bool)
    → IsValid t
    → IsValid (observe t s fresh).0
unfolding observe
observe-IsValid t s fresh h = ground arith

-- What an observation says of the trigger that it leaves.
pub observe_agrees :
    (t : AnalogHoldToRun) (s : AnalogClutchSample) (fresh : Bool)
    → IsValid t
    → let (t', o) = observe t s fresh in
      (is_false o.pressed ≡ true → t'.released_observed ≡ true)
      × (o.rising_edge ≡ true → t'.released_observed ≡ true)
      × (t.released_observed ≡ true → t'.released_observed ≡ true)
unfolding observe
observe_agrees t s fresh h = (λ e. ground arith, λ e. ground arith, λ e. ground arith)

pub require_release-IsValid : (t : AnalogHoldToRun) → IsValid t → IsValid (require_release t)
unfolding require_release
require_release-IsValid t h = ground arith

-- A press edge comes exactly from a fresh new sample at or above the press threshold on a trigger
-- that was debounced as released; a release edge exactly from one at or below the release threshold
-- on a trigger that was debounced as pressed.
pub observe_edges :
    (t : AnalogHoldToRun) (s : AnalogClutchSample) (fresh : Bool)
    → IsValid t
    → let o = (observe t s fresh).1 in
      ((o.rising_edge ≡ true) ↔ (
        (fresh ≡ true)
        × (o.new_sample ≡ true)
        × (t.pressed ≡ some false)
        × (t.pressed_at ≤ s.value)))
      × ((o.falling_edge ≡ true) ↔ (
          (fresh ≡ true)
          × (o.new_sample ≡ true)
          × (t.pressed ≡ some true)
          × (s.value ≤ t.released_at)))
unfolding observe
observe_edges t s fresh h =
    ((λ e. ground arith, λ e. ground arith), (λ e. ground arith, λ e. ground arith))

-- The trigger after a sequence of samples, each with whether it was fresh.
pub observe_all : AnalogHoldToRun → List (AnalogClutchSample × Bool) → AnalogHoldToRun
observe_all t [] = t
observe_all t ((s, fresh) ∷ rest) = observe_all (observe t s fresh).0 rest

pub observe_thresholds :
    (t : AnalogHoldToRun) (s : AnalogClutchSample) (fresh : Bool)
    → ((observe t s fresh).0.pressed_at ≡ t.pressed_at)
      × ((observe t s fresh).0.released_at ≡ t.released_at)
unfolding observe
observe_thresholds t s fresh = ground arith

abbrev pub InBand : ℕ → ℕ → AnalogClutchSample × Bool → Type 0
InBand lo hi p = (lo < p.0.value) × (p.0.value < hi)

observe_one_band :
    (t : AnalogHoldToRun) (s : AnalogClutchSample) (fresh : Bool)
    → t.released_at < s.value
    → s.value < t.pressed_at
    → let t' = (observe t s fresh).0 in
      (t'.pressed ≡ t.pressed) × (t'.released_observed ≡ t.released_observed)
unfolding observe
observe_one_band t s fresh l h = ground arith

observe_band_from :
    (lo hi : ℕ) (t : AnalogHoldToRun) (samples : List (AnalogClutchSample × Bool))
    → t.released_at ≡ lo
    → t.pressed_at ≡ hi
    → All (InBand lo hi) samples
    → let t' = observe_all t samples in
      (t'.pressed ≡ t.pressed) × (t'.released_observed ≡ t.released_observed)
unfolding observe_all
observe_band_from lo hi t [] l h band = (refl, refl)
observe_band_from lo hi t ((s, fresh) ∷ rest) l h band =
    let same = observe_thresholds t s fresh in
    let (p, r) = observe_one_band t s fresh (omega arith) (omega arith) in
    let (p', r') =
      observe_band_from lo hi (observe t s fresh).0 rest (same.1 ∙ l) (same.0 ∙ h) band.1 in
    (p' ∙ p, r' ∙ r)

-- Samples inside the hysteresis band, fresh or not and however many, never change the debounced
-- state.
pub observe_all_band :
    (t : AnalogHoldToRun) (samples : List (AnalogClutchSample × Bool))
    → All (InBand t.released_at t.pressed_at) samples
    → let t' = observe_all t samples in
      (t'.pressed ≡ t.pressed) × (t'.released_observed ≡ t.released_observed)
observe_all_band t samples = observe_band_from t.released_at t.pressed_at t samples refl refl
