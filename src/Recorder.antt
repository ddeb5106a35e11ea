-- ===== src/Recorder.antt =====
-- src/episode_dataset/async_writer.py: the writer of episodes that moves serialization off the control
-- thread. `Calls` is what passes through its queue, `Writer` the object, `Worker` its thread, and the
-- other children are proofs.
pub mod Calls
pub mod Writer
pub mod Worker
pub mod Synchronous
pub mod Producers
pub mod Refinement
pub mod Bounded
pub mod Working
pub mod Accounts
pub mod Draining
