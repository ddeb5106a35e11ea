-- ===== src/Lifecycle/Stale.antt =====
-- `StaleThresholds` and `stale_action` of src/teleoperation/state_machine.py.
use embodied_hand_lab.Prelude.{
  ℕ, ◌≤◌, ◌≡◌, Bool, true, Option, none, some, ◌&&◌, if◌then◌else◌, arith, ◌↔◌,
}
use embodied_hand_lab.Prelude.Int.{ℤ, pos, ltbℤ, lebℤ, ◌≤ℤ◌}

-- `SafetyAction` of teleoperation/contracts.py
pub data SafetyAction : Type 0 where
  hold allow controlled_stop abort : SafetyAction

-- Nanoseconds; `__post_init__` is `thresholds_ok`.
pub record StaleThresholds : Type 0 where
  pub warning_age_ns : ℤ
  pub hold_age_ns : ℤ
  pub controlled_stop_age_ns : ℤ
  pub fatal_communication_timeout_ns : ℤ

abbrev pub default_thresholds : StaleThresholds
default_thresholds = record {
  warning_age_ns = pos 40_000_000;
  hold_age_ns = pos 100_000_000;
  controlled_stop_age_ns = pos 500_000_000;
  fatal_communication_timeout_ns = pos 2_000_000_000;
}

-- The construction succeeds, with no `ValueError`.
unfoldable pub thresholds_ok : StaleThresholds → Bool
thresholds_ok t =
    lebℤ (pos 0) t.warning_age_ns
    && (ltbℤ t.warning_age_ns t.hold_age_ns
        && (ltbℤ t.hold_age_ns t.controlled_stop_age_ns
            && ltbℤ t.controlled_stop_age_ns t.fatal_communication_timeout_ns))

unfoldable pub stale_action : Option ℤ → StaleThresholds → SafetyAction
stale_action none t = hold
stale_action (some age_ns) t =
    if ltbℤ age_ns (pos 0)
    then abort
    else if lebℤ t.fatal_communication_timeout_ns age_ns
    then abort
    else if lebℤ t.controlled_stop_age_ns age_ns
    then controlled_stop
    else if lebℤ t.hold_age_ns age_ns
    then hold
    else allow

-- How far an action restricts motion.
abbrev pub severity : SafetyAction → ℕ
severity allow = 0
severity hold = 1
severity controlled_stop = 2
severity abort = 3

-- With accepted thresholds an older target is never treated more leniently than a younger one, and
-- a target is followed exactly while its age is not negative and below the hold threshold.
pub stale_action_monotone :
    (t : StaleThresholds) (young old : ℤ)
    → thresholds_ok t ≡ true
    → pos 0 ≤ℤ young
    → young ≤ℤ old
    → (severity (stale_action (some young) t) ≤ severity (stale_action (some old) t))
      × ((stale_action (some old) t ≡ allow) ↔ (ltbℤ old t.hold_age_ns ≡ true))
unfolding stale_action thresholds_ok
stale_action_monotone t young old ok nonneg le = ground arith
