-- ===== src/Ensemble.antt =====
-- src/embodiment_core/act_temporal_executor.py: the temporal ensemble that turns overlapping action
-- chunks into one action per command tick. Ticks, query numbers and timestamps are natural numbers.
-- An action is a row of numpy numbers: its type, the weights `exp(-coefficient * i)` over their sum
-- and `np.average` are parameters.
pub mod Buckets
pub mod Executor
pub mod Counting
pub mod Contents
pub mod Invariant
pub mod Selection
pub mod Contributors
pub mod Runs
