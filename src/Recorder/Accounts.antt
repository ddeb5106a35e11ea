-- ===== src/Recorder/Accounts.antt =====
-- The queue of src/episode_dataset/async_writer.py is bounded, and its counters account for each call.
use embodied_hand_lab.Prelude.{
  ℕ, ◌≡◌, true, List, [], ◌∷◌, arith, refl, if◌then◌else◌, length-append, Bool-cases, inl, inr,
  if_keeps, Result, ok, err,
}
use embodied_hand_lab.Recorder.Calls.{
  begin, append_sample, Terminal, EpisodeWriter, Item, terminal, stop,
}
use embodied_hand_lab.Recorder.Writer.{
  AsyncEpisodeWriter, new, enqueue, begin_episode, append_sample_call, terminal_call, give_up,
  put_terminal, put_stop, close, close_worker, has_room, Error, put, after_error, active_episode,
  shutdown_overflow,
}
use embodied_hand_lab.Recorder.Worker.{
  work, flush, Event, enqueue_event, put_event, note_event, put_terminal_event, put_stop_event,
  begin_event, sample_event, terminal_event, give_up_event, close_event, close_worker_event,
  work_event, flush_event, step, run,
}
use embodied_hand_lab.Recorder.Working.{work_on-IsBounded}
use embodied_hand_lab.Recorder.Bounded.{
  IsBounded, IsBounded-same, enqueue-IsBounded, enqueue_open-IsBounded, note_from-IsBounded, calls,
  calls-append,
}

module _ (w : EpisodeWriter) where
  open w use {Payload, Files}

  -- An item that is no call may be put.
  put-IsBounded :
      (s : AsyncEpisodeWriter w) (item : Item Payload)
      → calls (item ∷ []) ≡ 0
      → has_room w s ≡ true
      → IsBounded w s
      → IsBounded w (put w s item)
  put-IsBounded s item z r v =
      let grown = length-append s.queue (item ∷ []) in
      let counted = calls-append s.queue (item ∷ []) in
      IsBounded-same w s (put w s item) v refl refl refl (ground arith) (omega arith)

  put_terminal-IsBounded :
      (s : AsyncEpisodeWriter w) (t : Terminal) → IsBounded w s → IsBounded w (put_terminal w s t).0
  unfolding put_terminal
  put_terminal-IsBounded s t v = elim (Bool-cases (has_room w s)) [
    | inl e ↦ rw e (put-IsBounded s (terminal t) refl e v)
    | inr e ↦ rw e v
  ]

  put_stop-IsBounded : (s : AsyncEpisodeWriter w) → IsBounded w s → IsBounded w (put_stop w s)
  unfolding put_stop
  put_stop-IsBounded s v = elim (Bool-cases (has_room w s)) [
    | inl e ↦ rw e (put-IsBounded s stop refl e v)
    | inr e ↦ rw e v
  ]

  closed-IsBounded :
      (s : AsyncEpisodeWriter w) → IsBounded w s → IsBounded w (record s { closed = true })
  closed-IsBounded s v = IsBounded-same w s _ v refl refl refl v.depth (omega arith)

  give_up-IsBounded : (s : AsyncEpisodeWriter w) → IsBounded w s → IsBounded w (give_up w s)
  unfolding give_up
  give_up-IsBounded s v = elim (Bool-cases (has_room w s)) [
    | inl e ↦ rw e (closed-IsBounded (put w s stop) (put-IsBounded s stop refl e v))
    | inr e ↦ rw e v
  ]

  close_worker-IsBounded :
      (s : AsyncEpisodeWriter w) → IsBounded w s → IsBounded w (close_worker w s).0
  unfolding close_worker
  close_worker-IsBounded s v =
      let P : AsyncEpisodeWriter w × Result Error (Unit {0}) → Type 0 = λ t. IsBounded w t.0 in
      let full : AsyncEpisodeWriter w × Result Error (Unit {0}) =
        (record s { closed = true }, err shutdown_overflow) in
      let shut : AsyncEpisodeWriter w × Result Error (Unit {0}) =
        (record (put w s stop) { closed = true }, ok tt) in
      if_keeps P s.closed (s, ok tt) (if has_room w s then shut else full) v
        (elim (Bool-cases (has_room w s)) [
          | inl e ↦ rw e (closed-IsBounded (put w s stop) (put-IsBounded s stop refl e v))
          | inr e ↦ rw e (closed-IsBounded s v)
        ])

  close-IsBounded : (s : AsyncEpisodeWriter w) → IsBounded w s → IsBounded w (close w s).0
  unfolding close
  close-IsBounded s v =
      let P : AsyncEpisodeWriter w × Result Error (Unit {0}) → Type 0 = λ t. IsBounded w t.0 in
      let busy : AsyncEpisodeWriter w × Result Error (Unit {0}) = (s, err active_episode) in
      if_keeps P s.closed (s, ok tt) (if s.is_started then busy else close_worker w s) v
        (if_keeps P s.is_started busy (close_worker w s) v (close_worker-IsBounded s v))

  flush-IsBounded : (s : AsyncEpisodeWriter w) → IsBounded w s → IsBounded w (flush w s)
  unfolding flush
  flush-IsBounded s v = record {
    depth = v.depth;
    max_depth = v.max_depth;
    enqueued = v.enqueued;
    written = v.written;
    dropped = v.dropped;
    overflows = v.overflows;
    expired_frames = v.expired_frames;
    rings = v.rings;
    accounts = v.accounts;
  }

  step-IsBounded :
      (s : AsyncEpisodeWriter w) (e : Event w) → IsBounded w s → IsBounded w (step w s e)
  unfolding step begin_episode append_sample_call work terminal_call
  step-IsBounded s (enqueue_event method p) v = enqueue-IsBounded w s method p v
  step-IsBounded s (put_event method p) v = enqueue_open-IsBounded w s method p v
  step-IsBounded s (note_event n) v = note_from-IsBounded w s [] n s.notes v (omega arith)
  step-IsBounded s (put_terminal_event t) v = put_terminal-IsBounded s t v
  step-IsBounded s put_stop_event v = put_stop-IsBounded s v
  step-IsBounded s (begin_event p) v =
      let s' : AsyncEpisodeWriter w = record s { is_started = true } in
      enqueue-IsBounded w s' begin p (IsBounded-same w s s' v refl refl refl v.depth (omega arith))
  step-IsBounded s (sample_event p) v =
      let b = enqueue-IsBounded w s append_sample p v in
      IsBounded-same w (enqueue w s append_sample p).0 _ b refl refl refl b.depth (omega arith)
  step-IsBounded s (terminal_event t) v =
      put_terminal-IsBounded s (after_error w s.core.has_error t) v
  step-IsBounded s give_up_event v = give_up-IsBounded s v
  step-IsBounded s close_event v = close-IsBounded s v
  step-IsBounded s close_worker_event v = close_worker-IsBounded s v
  step-IsBounded s work_event v = work_on-IsBounded w s s.batch refl v
  step-IsBounded s flush_event v = flush-IsBounded s v

  run-IsBounded :
      (s : AsyncEpisodeWriter w) (es : List (Event w)) → IsBounded w s → IsBounded w (run w s es)
  unfolding run
  run-IsBounded s [] v = v
  run-IsBounded s (e ∷ es) v = run-IsBounded (step w s e) es (step-IsBounded s e v)

  -- However the threads take turns, the queue never holds more items than its capacity, nor does the
  -- mark of its greatest depth exceed it. Every call that was written or dropped, and every call that
  -- waits, is counted as enqueued or as one that found the queue full, or was put by a thread that
  -- has yet to count it; the counts by method add up to the totals; each dropped call found the queue
  -- full or a camera frame gone, and the two counters of frames that were gone agree.
  pub writer_run-IsBounded :
      (capacity batch_size : ℕ) (files : Files) (es : List (Event w))
      → IsBounded w (run w (new w capacity batch_size files) es)
  unfolding new
  writer_run-IsBounded capacity batch_size files es =
      run-IsBounded (new w capacity batch_size files) es (omega arith)
