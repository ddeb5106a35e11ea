-- ===== src/Recorder/Working.antt =====
-- The bounds and the counters of src/episode_dataset/async_writer.py over a turn of the worker.
use embodied_hand_lab.Prelude.{
  suc, ◌+◌, ◌-◌, ◌≤◌, ◌≡◌, List, [], ◌∷◌, arith, refl, take, drop, length-drop, Bool-cases, inl,
  inr, if_keeps, ap,
}
use embodied_hand_lab.Recorder.Calls.{
  Method, append_sample, same_method, Outcome, done, expired, failed, EpisodeWriter, Item, call,
  terminal, stop,
}
use embodied_hand_lab.Recorder.Writer.{AsyncEpisodeWriter}
use embodied_hand_lab.Recorder.Worker.{
  arguments, note_quality, note_expired, finish_call, execute_call, execute, work_on,
}
use embodied_hand_lab.Recorder.Bounded.{
  IsBounded, IsBounded-same, sum_of-increment, calls, calls-take-drop, owed,
}

module _ (w : EpisodeWriter) where
  open w use {Payload, Files}

  -- There is room in the accounts for one more call.
  abbrev Owes : AsyncEpisodeWriter w → Type 0
  Owes s =
      s.metrics.completed_count + s.metrics.drop_count + calls s.batch + calls s.queue + 1
      ≤ s.metrics.enqueued_count + s.metrics.overflow_count + owed s.notes

  pub finish_call-IsBounded :
      (s : AsyncEpisodeWriter w) (files : Files) (outcome : Outcome) (method : Method) (p : Payload)
      → IsBounded w s
      → Owes s
      → IsBounded w (finish_call w s files outcome method p)
  unfolding finish_call note_expired note_quality
  finish_call-IsBounded s files done method p v o =
      let e = sum_of-increment method s.metrics.written_by_method in
      record {
        depth = v.depth;
        max_depth = v.max_depth;
        enqueued = v.enqueued;
        written = omega (arith, v.written);
        dropped = v.dropped;
        overflows = v.overflows;
        expired_frames = v.expired_frames;
        rings = v.rings;
        accounts = omega arith;
      }
  finish_call-IsBounded s files failed method p v o = record {
    depth = v.depth;
    max_depth = v.max_depth;
    enqueued = v.enqueued;
    written = v.written;
    dropped = v.dropped;
    overflows = v.overflows;
    expired_frames = v.expired_frames;
    rings = v.rings;
    accounts = v.accounts;
  }
  finish_call-IsBounded s files expired method p v o =
      let e = sum_of-increment method s.metrics.drop_by_method in
      elim (Bool-cases (same_method method append_sample)) [
        | inl q ↦ rw q (record {
          depth = v.depth;
          max_depth = v.max_depth;
          enqueued = v.enqueued;
          written = v.written;
          dropped = omega (arith, v.dropped);
          overflows = omega (arith, v.overflows);
          expired_frames = omega (arith, v.expired_frames);
          rings = omega (arith, v.rings);
          accounts = omega arith;
        })
        | inr q ↦ rw q (record {
          depth = v.depth;
          max_depth = v.max_depth;
          enqueued = v.enqueued;
          written = v.written;
          dropped = omega (arith, v.dropped);
          overflows = omega (arith, v.overflows);
          expired_frames = omega (arith, v.expired_frames);
          rings = omega (arith, v.rings);
          accounts = omega arith;
        })
      ]

  pub work_on-IsBounded :
      (s : AsyncEpisodeWriter w) (batch : List (Item Payload))
      → s.batch ≡ batch
      → IsBounded w s
      → IsBounded w (work_on w s batch)
  unfolding work_on execute execute_call
  work_on-IsBounded s [] e v =
      let n = suc (s.batch_size - 1) in
      let counted = calls-take-drop n s.queue in
      let shorter = length-drop n s.queue in
      let taken : AsyncEpisodeWriter w = record s {
        batch = take n s.queue;
        queue = drop n s.queue;
      } in
      if_keeps (IsBounded w) s.stopping s taken v
        (IsBounded-same w s taken v refl refl refl (omega (arith, v.depth)) (omega arith))
  work_on-IsBounded s (terminal t ∷ rest) e v =
      let counted = ap calls e in IsBounded-same w s _ v refl refl refl v.depth (omega arith)
  work_on-IsBounded s (stop ∷ rest) e v =
      let counted = ap calls e in IsBounded-same w s _ v refl refl refl v.depth (omega arith)
  work_on-IsBounded s (call method p ∷ rest) e v =
      let counted = ap calls e in
      let s' : AsyncEpisodeWriter w = record s { batch = rest } in
      let args = arguments w s.core.files method p in
      let t = w.perform s.core.files method args in
      let v' : IsBounded w s' = IsBounded-same w s s' v refl refl refl v.depth (omega arith) in
      if_keeps (IsBounded w) s.core.has_error s' (finish_call w s' t.0 t.1 method args) v'
        (finish_call-IsBounded s' t.0 t.1 method args v' (omega (arith, v.accounts)))
