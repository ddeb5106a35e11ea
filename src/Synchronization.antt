-- ===== src/Synchronization.antt =====
-- src/episode_dataset/synchronization.py: the offline synchronizer, which lays the sources of an
-- episode on a grid of fixed rate. `Bisection` is `bisect.bisect_right`, `Observations` what it reads
-- from the rows, `Report` the grid; `Selection` and `Causality` are proofs.
pub mod Bisection
pub mod Observations
pub mod Report
pub mod Selection
pub mod Causality
pub mod Counts
