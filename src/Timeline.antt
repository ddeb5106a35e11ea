-- ===== src/Timeline.antt =====
-- src/episode_dataset/timeline.py: the timeline of one source and the clock of an episode. Times are
-- nanoseconds of a monotonic clock, natural numbers.
pub mod Deadline
pub mod Causal
pub mod Clock
