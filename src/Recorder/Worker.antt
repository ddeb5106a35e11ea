-- ===== src/Recorder/Worker.antt =====
-- src/episode_dataset/async_writer.py: the worker of `AsyncEpisodeWriter`, and the events of both
-- threads.
use embodied_hand_lab.Prelude.{
  ℕ, suc, ◌+◌, ◌-◌, Bool, true, ◌||◌, List, [], ◌∷◌, if◌then◌else◌, take, drop,
}
use embodied_hand_lab.Recorder.Calls.{
  Method, begin, append_sample, same_method, Outcome, done, expired, failed, Terminal, finalize,
  discard_rejected_start, EpisodeWriter, Item, call, terminal, stop, increment,
}
use embodied_hand_lab.Recorder.Writer.{
  Core, AsyncEpisodeWriter, after_error, enqueue, enqueue_open, note_from, put_terminal, put_stop,
  begin_episode, append_sample_call, terminal_call, give_up, close, close_worker,
}

module _ (w : EpisodeWriter) where
  open w use {
    Payload, Files, sample_count, numbered, perform, write_quality, flush_pending, close_files,
  }

  -- `replace(args[0], frame_index=self._writer.sample_count)` for a sample.
  abbrev pub arguments : Files → Method → Payload → Payload
  arguments files method payload =
      if same_method method append_sample then numbered payload (sample_count files) else payload

  -- `_write_expired_sample_quality`, on its result.
  unfoldable pub note_quality : AsyncEpisodeWriter w → Files → ℕ → Bool → AsyncEpisodeWriter w
  note_quality s files additional written = record s {
    core = record s.core { files = files; has_error = if written then s.core.has_error else true };
    metrics = record s.metrics {
      ring_overwrite_drop_count = s.metrics.ring_overwrite_drop_count + additional;
      ring_reference_expired_count = s.metrics.ring_reference_expired_count + additional;
      writer_error_count = s.metrics.writer_error_count + (if written then 0 else 1);
    };
  }

  -- The `except CameraFrameUnavailable` of `_execute`.
  unfoldable pub note_expired :
      AsyncEpisodeWriter w → Files → Method → Payload → AsyncEpisodeWriter w
  unfolding note_quality
  note_expired s files method payload =
      let s' : AsyncEpisodeWriter w = record s {
        core = record s.core { files = files };
        metrics = record s.metrics {
          ring_overwrite_drop_count = s.metrics.ring_overwrite_drop_count + 1;
          ring_reference_expired_count = s.metrics.ring_reference_expired_count + 1;
          drop_count = s.metrics.drop_count + 1;
          drop_by_method = increment method s.metrics.drop_by_method;
        };
      } in
      if same_method method append_sample
      then (let (files', additional, written) = write_quality files payload in
          note_quality s' files' additional written)
      else s'

  -- The end of the call of the writer of files.
  unfoldable pub finish_call :
      AsyncEpisodeWriter w → Files → Outcome → Method → Payload → AsyncEpisodeWriter w
  unfolding note_expired
  finish_call s files done method payload = record s {
    core = record s.core { files = files };
    metrics = record s.metrics {
      completed_count = s.metrics.completed_count + 1;
      written_by_method = increment method s.metrics.written_by_method;
    };
  }
  finish_call s files expired method payload = note_expired s files method payload
  finish_call s files failed method payload = record s {
    core = record {
      files = files;
      has_error = true;
      begin_failed = same_method method begin || s.core.begin_failed;
    };
    metrics = record s.metrics { writer_error_count = s.metrics.writer_error_count + 1 };
  }

  -- `_execute` of a call.
  unfoldable pub execute_call : AsyncEpisodeWriter w → Method → Payload → AsyncEpisodeWriter w
  unfolding finish_call
  execute_call s method payload =
      let args = arguments s.core.files method payload in
      let (files, outcome) = perform s.core.files method args in
      if s.core.has_error then s else finish_call s files outcome method args

  -- The call that `_execute` makes of the writer of files for a terminal item.
  unfoldable pub settle : Core w → Terminal → Terminal
  settle c (finalize status reason) =
      if c.begin_failed
      then discard_rejected_start "async_episode_begin_failure"
      else after_error w c.has_error (finalize status reason)
  settle c (discard_rejected_start reason) = discard_rejected_start reason

  -- `_execute`, and what the loop of `_run` does with `None`.
  unfoldable pub execute : AsyncEpisodeWriter w → Item Payload → AsyncEpisodeWriter w
  unfolding execute_call settle
  execute s (call method payload) = execute_call s method payload
  execute s (terminal t) =
      let (files, returned) = close_files s.core.files (settle s.core t) in
      record s { core = record s.core { files = files } }
  execute s stop = record s { stopping = true }

  -- What the worker does next: the next item of its batch, or the next batch, unless it has stopped.
  unfoldable pub work_on : AsyncEpisodeWriter w → List (Item Payload) → AsyncEpisodeWriter w
  unfolding execute
  work_on s (item ∷ rest) = execute (record s { batch = rest }) item
  work_on s [] = if s.stopping then s else record s {
    batch = take (suc (s.batch_size - 1)) s.queue;
    queue = drop (suc (s.batch_size - 1)) s.queue;
  }

  unfoldable pub work : AsyncEpisodeWriter w → AsyncEpisodeWriter w
  unfolding work_on
  work s = work_on s s.batch

  -- `flush_pending` at the end of a batch, when it is due.
  unfoldable pub flush : AsyncEpisodeWriter w → AsyncEpisodeWriter w
  flush s =
      let (files, returned) = flush_pending s.core.files in
      record s {
        core = record s.core {
          files = files;
          has_error = if returned then s.core.has_error else true;
        };
        metrics = record s.metrics {
          writer_error_count = s.metrics.writer_error_count + (if returned then 0 else 1);
        };
      }

  -- What a thread does. The events `put_event`, `put_terminal_event` and `put_stop_event` are those of
  -- a thread that was behind the guards of its method, or waited for room, while others went on.
  pub data Event : Type 0 where
    enqueue_event : Method → Payload → Event
    put_event : Method → Payload → Event
    note_event : ℕ → Event
    begin_event : Payload → Event
    sample_event : Payload → Event
    terminal_event : Terminal → Event
    put_terminal_event : Terminal → Event
    put_stop_event : Event
    give_up_event : Event
    close_event : Event
    close_worker_event : Event
    work_event : Event
    flush_event : Event

  unfoldable pub step : AsyncEpisodeWriter w → Event → AsyncEpisodeWriter w
  step s (enqueue_event method payload) = (enqueue w s method payload).0
  step s (put_event method payload) = (enqueue_open w s method payload).0
  step s (note_event n) = note_from w s [] n s.notes
  step s (begin_event payload) = (begin_episode w s payload).0
  step s (sample_event payload) = (append_sample_call w s payload).0
  step s (terminal_event t) = (terminal_call w s t).0
  step s (put_terminal_event t) = (put_terminal w s t).0
  step s put_stop_event = put_stop w s
  step s give_up_event = give_up w s
  step s close_event = (close w s).0
  step s close_worker_event = (close_worker w s).0
  step s work_event = work s
  step s flush_event = flush s

  unfoldable pub run : AsyncEpisodeWriter w → List Event → AsyncEpisodeWriter w
  run s [] = s
  run s (e ∷ es) = run (step s e) es
