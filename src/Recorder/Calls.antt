-- ===== src/Recorder/Calls.antt =====
-- src/episode_dataset/async_writer.py: the items of the queue, and the writer of files behind it. That
-- writer, `CanonicalEpisodeWriter`, is an interface: what its methods do to the files and whether
-- they raise. Texts of errors, reports and times of release are left out.
use embodied_hand_lab.Prelude.{ℕ, Bool, true, false, String, ◌+◌}

-- The methods that are called through the queue.
pub data Method : Type 0 where
  begin append_raw append_raw_batch append_raw_camera append_sample : Method

abbrev pub same_method : Method → Method → Bool
same_method begin begin = true
same_method append_raw append_raw = true
same_method append_raw_batch append_raw_batch = true
same_method append_raw_camera append_raw_camera = true
same_method append_sample append_sample = true
same_method _ _ = false

pub data EpisodeStatus : Type 0 where
  completed aborted invalid : EpisodeStatus

-- How a call of the writer of files ends: it returns, a camera frame is no longer in its ring
-- (`CameraFrameUnavailable`), or it raises anything else.
pub data Outcome : Type 0 where
  done expired failed : Outcome

-- The terminal methods with their arguments.
pub data Terminal : Type 0 where
  finalize : EpisodeStatus → String → Terminal
  discard_rejected_start : String → Terminal

pub record EpisodeWriter : Type 1 where
  pub Payload : Type 0
  pub Files : Type 0
  pub sample_count : Files → ℕ
  -- `replace(sample, frame_index=...)`
  pub numbered : Payload → ℕ → Payload
  pub perform : Files → Method → Payload → Files × Outcome
  -- `_write_expired_sample_quality`: the other frames that are not available, and whether the row was
  -- written.
  pub write_quality : Files → Payload → Files × ℕ × Bool
  -- Whether the call returned.
  pub flush_pending : Files → Files × Bool
  pub close_files : Files → Terminal → Files × Bool

-- An item of the queue: a call, a terminal call, or the `None` that stops the worker.
pub data Item (P : Type 0) : Type 0 where
  call : Method → P → Item P
  terminal : Terminal → Item P
  stop : Item P

-- A dictionary from methods to counts.
pub record ByMethod : Type 0 where
  pub begins : ℕ
  pub raws : ℕ
  pub batches : ℕ
  pub cameras : ℕ
  pub samples : ℕ

abbrev pub no_calls : ByMethod
no_calls = record { begins = 0; raws = 0; batches = 0; cameras = 0; samples = 0 }

-- `counts[method] = counts.get(method, 0) + 1`
unfoldable pub increment : Method → ByMethod → ByMethod
increment begin m = record m { begins = m.begins + 1 }
increment append_raw m = record m { raws = m.raws + 1 }
increment append_raw_batch m = record m { batches = m.batches + 1 }
increment append_raw_camera m = record m { cameras = m.cameras + 1 }
increment append_sample m = record m { samples = m.samples + 1 }
