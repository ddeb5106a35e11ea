-- ===== src/Recorder/Writer.antt =====
-- src/episode_dataset/async_writer.py: `AsyncEpisodeWriter` with its worker thread. The queue is first
-- in, first out, and the threads take turns: an event is one call of a method up to where it waits or
-- takes the lock of the counters, what it does under that lock, one item that the worker executes,
-- the taking of a batch, or a flush. Times, and the telemetry of durations, are left out.
use embodied_hand_lab.Prelude.{
  ℕ, zero, suc, ◌+◌, Bool, true, false, List, [], ◌∷◌, ◌++◌, ltb, if◌then◌else◌, length, Result, ok,
  err,
}
use Prim.Native.Nat.{max}
use embodied_hand_lab.Recorder.Calls.{
  Method, begin, append_sample, aborted, Terminal, finalize, discard_rejected_start, EpisodeWriter,
  Item, call, terminal, stop, ByMethod, no_calls, increment,
}

-- The `OSError`s, `TimeoutError`s and the `RuntimeError` of the methods.
pub data Error : Type 0 where
  worker_failed writer_closed begin_overflow terminal_overflow shutdown_overflow active_episode :
      Error

pub record Metrics : Type 0 where
  pub enqueued_count : ℕ
  pub completed_count : ℕ
  pub queue_max_depth : ℕ
  pub overflow_count : ℕ
  pub drop_count : ℕ
  pub ring_overwrite_drop_count : ℕ
  pub ring_reference_expired_count : ℕ
  pub drop_by_method : ByMethod
  pub enqueued_by_method : ByMethod
  pub written_by_method : ByMethod
  pub writer_error_count : ℕ

abbrev pub no_metrics : Metrics
no_metrics = record {
  enqueued_count = 0;
  completed_count = 0;
  queue_max_depth = 0;
  overflow_count = 0;
  drop_count = 0;
  ring_overwrite_drop_count = 0;
  ring_reference_expired_count = 0;
  drop_by_method = no_calls;
  enqueued_by_method = no_calls;
  written_by_method = no_calls;
  writer_error_count = 0;
}

-- What an `_enqueue` that has tried the queue has yet to count: a call that was put, or one that found
-- the queue full.
pub data Note : Type 0 where
  counted refused : Method → Note

module _ (w : EpisodeWriter) where
  open w use {
    Payload, Files, sample_count, numbered, perform, write_quality, flush_pending, close_files,
  }

  -- What the worker alone changes: the files, `_error is not None` and `_begin_failed`.
  pub record Core : Type 0 where
    pub files : Files
    pub has_error : Bool
    pub begin_failed : Bool

  -- `notes` are the calls of `_enqueue` that stand between the queue and the lock of the counters.
  -- `batch` are the items that the worker took and has not executed, `stopping` whether one of the
  -- batch stops it.
  pub record AsyncEpisodeWriter : Type 0 where
    pub capacity : ℕ
    pub batch_size : ℕ
    pub queue : List (Item Payload)
    pub batch : List (Item Payload)
    pub stopping : Bool
    pub core : Core
    pub closed : Bool
    pub metrics : Metrics
    pub notes : List Note
    pub accepted_sample_count : ℕ
    pub is_started : Bool

  unfoldable pub new : ℕ → ℕ → Files → AsyncEpisodeWriter
  new capacity batch_size files = record {
    capacity = capacity;
    batch_size = batch_size;
    queue = [];
    batch = [];
    stopping = false;
    core = record { files = files; has_error = false; begin_failed = false };
    closed = false;
    metrics = no_metrics;
    notes = [];
    accepted_sample_count = 0;
    is_started = false;
  }

  -- `queue.put_nowait`, or a `put` whose timeout ends while the queue is full.
  abbrev pub has_room : AsyncEpisodeWriter → Bool
  has_room s = ltb (length s.queue) s.capacity

  abbrev pub put : AsyncEpisodeWriter → Item Payload → AsyncEpisodeWriter
  put s item = record s { queue = s.queue ++ (item ∷ []) }

  -- `_enqueue`, behind its guards, up to the lock of the counters.
  unfoldable pub enqueue_open : AsyncEpisodeWriter → Method → Payload → AsyncEpisodeWriter × Bool
  enqueue_open s method payload =
      if has_room s
      then (record (put s (call method payload)) { notes = counted method ∷ s.notes }, true)
      else (record s { notes = refused method ∷ s.notes }, false)

  -- What `_enqueue` does under the lock: the worker may have been at the queue since.
  unfoldable pub note : AsyncEpisodeWriter → Note → AsyncEpisodeWriter
  unfolding increment
  note s (counted method) = record s {
    metrics = record s.metrics {
      enqueued_count = s.metrics.enqueued_count + 1;
      enqueued_by_method = increment method s.metrics.enqueued_by_method;
      queue_max_depth = max s.metrics.queue_max_depth (length s.queue);
    };
  }
  note s (refused method) = record s {
    metrics = record s.metrics {
      overflow_count = s.metrics.overflow_count + 1;
      drop_count = s.metrics.drop_count + 1;
      drop_by_method = increment method s.metrics.drop_by_method;
    };
  }

  -- Some of the threads that wait for the lock takes it next.
  unfoldable pub note_from : AsyncEpisodeWriter → List Note → ℕ → List Note → AsyncEpisodeWriter
  unfolding note
  note_from s seen n [] = s
  note_from s seen zero (x ∷ rest) = note (record s { notes = seen ++ rest }) x
  note_from s seen (suc n) (x ∷ rest) = note_from s (x ∷ seen) n rest

  unfoldable pub enqueue :
      AsyncEpisodeWriter → Method → Payload → AsyncEpisodeWriter × Result Error Bool
  unfolding enqueue_open
  enqueue s method payload =
      if s.core.has_error
      then (s, err worker_failed)
      else if s.closed
      then (s, err writer_closed)
      else let t = enqueue_open s method payload in (t.0, ok t.1)

  -- `begin`, after the prerequisites are validated.
  unfoldable pub begin_episode :
      AsyncEpisodeWriter → Payload → AsyncEpisodeWriter × Result Error (Unit {0})
  unfolding enqueue
  begin_episode s payload =
      let (s', r) = enqueue (record s { is_started = true }) begin payload in
      (s', elim r [ err e ↦ err e | ok b ↦ if b then ok tt else err begin_overflow ])

  -- `append_sample`, after the test of its frame references.
  unfoldable pub append_sample_call :
      AsyncEpisodeWriter → Payload → AsyncEpisodeWriter × Result Error Bool
  unfolding enqueue
  append_sample_call s payload =
      let (s', r) = enqueue s append_sample payload in
      (
        record s' {
          accepted_sample_count =
              s'.accepted_sample_count + elim r [ err e ↦ 0 | ok b ↦ if b then 1 else 0 ];
        },
        r,
      )

  -- The status and the reason that `finalize` passes on.
  abbrev pub after_error : Bool → Terminal → Terminal
  after_error true (finalize status reason) = finalize aborted "async_data_write_failure"
  after_error true (discard_rejected_start reason) = discard_rejected_start reason
  after_error false t = t

  -- `_terminal_call`, up to where it waits.
  unfoldable pub put_terminal :
      AsyncEpisodeWriter → Terminal → AsyncEpisodeWriter × Result Error (Unit {0})
  put_terminal s t = if has_room s then (put s (terminal t), ok tt) else (s, err terminal_overflow)

  -- `finalize` and `discard_rejected_start`, up to where `_terminal_call` waits.
  unfoldable pub terminal_call :
      AsyncEpisodeWriter → Terminal → AsyncEpisodeWriter × Result Error (Unit {0})
  unfolding put_terminal
  terminal_call s t = put_terminal s (after_error s.core.has_error t)

  -- The `put` of `_close_worker`, when it had to wait for room.
  unfoldable pub put_stop : AsyncEpisodeWriter → AsyncEpisodeWriter
  put_stop s = if has_room s then put s stop else s

  -- What `_terminal_call` does when the wait for its result has timed out.
  unfoldable pub give_up : AsyncEpisodeWriter → AsyncEpisodeWriter
  give_up s = if has_room s then record (put s stop) { closed = true } else s

  -- `_close_worker`, up to the join.
  unfoldable pub close_worker : AsyncEpisodeWriter → AsyncEpisodeWriter × Result Error (Unit {0})
  close_worker s =
      if s.closed
      then (s, ok tt)
      else if has_room s
      then (record (put s stop) { closed = true }, ok tt)
      else (record s { closed = true }, err shutdown_overflow)

  -- `close`
  unfoldable pub close : AsyncEpisodeWriter → AsyncEpisodeWriter × Result Error (Unit {0})
  unfolding close_worker
  close s =
      if s.closed
      then (s, ok tt)
      else if s.is_started
      then (s, err active_episode)
      else close_worker s
