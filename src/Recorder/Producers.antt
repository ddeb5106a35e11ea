-- ===== src/Recorder/Producers.antt =====
-- The methods of src/episode_dataset/async_writer.py that the producers call, and what each brings to
-- the queue.
use embodied_hand_lab.Prelude.{
  ◌≡◌, Bool, true, false, List, [], ◌∷◌, ◌++◌, refl, if◌then◌else◌, Result, ok, err, sym,
  Bool-cases, inl, inr, if_keeps,
}
use mathlib.Core.List.{append-nil}
use embodied_hand_lab.Recorder.Calls.{
  Method, begin, append_sample, Terminal, EpisodeWriter, Item, call, terminal, stop,
}
use embodied_hand_lab.Recorder.Writer.{
  Core, AsyncEpisodeWriter, new, after_error, enqueue, enqueue_open, begin_episode,
  append_sample_call, terminal_call, give_up, close, close_worker, has_room, Error, begin_overflow,
  worker_failed, writer_closed, put, shutdown_overflow, active_episode,
}
use embodied_hand_lab.Recorder.Calls.{finalize, discard_rejected_start, aborted}
use embodied_hand_lab.Recorder.Writer.{
  Note, counted, refused, note, note_from, put_terminal, put_stop,
}
use embodied_hand_lab.Prelude.{ℕ, zero, suc}

module _ (w : EpisodeWriter) where
  open w use {Payload, Files, perform, write_quality, flush_pending, close_files}

  -- What a caller is told of its item.
  abbrev pub if_true : Result Error Bool → Item Payload → List (Item Payload)
  if_true (ok true) item = item ∷ []
  if_true (ok false) item = []
  if_true (err e) item = []

  abbrev pub if_returned : Result Error (Unit {0}) → Item Payload → List (Item Payload)
  if_returned (ok u) item = item ∷ []
  if_returned (err e) item = []

  -- An event of a producer brings its item to the end of the queue and leaves the rest alone.
  pub record Brings (q b : List (Item Payload)) (c : Core w) (s' : AsyncEpisodeWriter w)
      (new : List (Item Payload)) : Type 0 where
    pub queue : s'.queue ≡ q ++ new
    pub batch : s'.batch ≡ b
    pub core : s'.core ≡ c

  abbrev pub Adds : AsyncEpisodeWriter w → AsyncEpisodeWriter w → List (Item Payload) → Type 0
  Adds s s' new = Brings s.queue s.batch s.core s' new

  nothing : (s : AsyncEpisodeWriter w) → Adds s s []
  nothing s = record { queue = sym (append-nil s.queue); batch = refl; core = refl }

  pub enqueue_open-Adds :
      (s : AsyncEpisodeWriter w) (method : Method) (p : Payload)
      → Adds s
          (enqueue_open w s method p).0
          (if_true (ok (enqueue_open w s method p).1) (call method p))
  unfolding enqueue_open
  enqueue_open-Adds s method p = elim (Bool-cases (has_room w s)) [
    | inl e ↦ rw e (record { queue = refl; batch = refl; core = refl })
    | inr e ↦ rw e (record { queue = sym (append-nil s.queue); batch = refl; core = refl })
  ]

  pub enqueue-Adds :
      (s : AsyncEpisodeWriter w) (method : Method) (p : Payload)
      → Adds s (enqueue w s method p).0 (if_true (enqueue w s method p).1 (call method p))
  unfolding enqueue
  enqueue-Adds s method p =
      let P : AsyncEpisodeWriter w × Result Error Bool → Type 0 =
        λ t. Adds s t.0 (if_true t.1 (call method p)) in
      let t = enqueue_open w s method p in
      let opened : AsyncEpisodeWriter w × Result Error Bool = (t.0, ok t.1) in
      let shut : AsyncEpisodeWriter w × Result Error Bool = (s, err writer_closed) in
      if_keeps P s.core.has_error (s, err worker_failed) (if s.closed then shut else opened)
        (nothing s) (if_keeps P s.closed shut opened (nothing s) (enqueue_open-Adds s method p))

  begin_result :
      (s : AsyncEpisodeWriter w) (s' : AsyncEpisodeWriter w) (r : Result Error Bool)
      (item : Item Payload)
      → Adds s s' (if_true r item)
      → Adds s s' (
          if_returned
            (elim r [ err e ↦ err e | ok b ↦ if b then ok tt else err begin_overflow ])
            item)
  begin_result s s' (ok true) item a = a
  begin_result s s' (ok false) item a = a
  begin_result s s' (err e) item a = a

  pub put_terminal-Adds :
      (s : AsyncEpisodeWriter w) (t : Terminal)
      → Adds s (put_terminal w s t).0 (if_returned (put_terminal w s t).1 (terminal t))
  unfolding put_terminal
  put_terminal-Adds s t = elim (Bool-cases (has_room w s)) [
    | inl e ↦ rw e (record { queue = refl; batch = refl; core = refl })
    | inr e ↦ rw e (nothing s)
  ]

  pub put_stop-Adds :
      (s : AsyncEpisodeWriter w) → Adds s (put_stop w s) (if has_room w s then stop ∷ [] else [])
  unfolding put_stop
  put_stop-Adds s = elim (Bool-cases (has_room w s)) [
    | inl e ↦ rw e (record { queue = refl; batch = refl; core = refl })
    | inr e ↦ rw e (nothing s)
  ]

  -- Counting brings nothing.
  pub note_from-Adds :
      (s : AsyncEpisodeWriter w) (seen : List Note) (n : ℕ) (xs : List Note)
      → Adds s (note_from w s seen n xs) []
  unfolding note_from note
  note_from-Adds s seen n [] = nothing s
  note_from-Adds s seen zero (counted method ∷ rest) = record {
    queue = sym (append-nil s.queue);
    batch = refl;
    core = refl;
  }
  note_from-Adds s seen zero (refused method ∷ rest) = record {
    queue = sym (append-nil s.queue);
    batch = refl;
    core = refl;
  }
  note_from-Adds s seen (suc n) (x ∷ rest) = note_from-Adds s (x ∷ seen) n rest

  -- What `finalize` passes on once a write has failed; a rejected start is passed on as it is.
  abbrev pub passed_on : Bool → Terminal → Terminal
  passed_on failed (discard_rejected_start reason) = discard_rejected_start reason
  passed_on failed (finalize status reason) = elim failed [
    | true ↦ finalize aborted "async_data_write_failure"
    | false ↦ finalize status reason
  ]

  after_error-passed_on : (b : Bool) (t : Terminal) → after_error w b t ≡ passed_on b t
  after_error-passed_on true (finalize status reason) = refl
  after_error-passed_on true (discard_rejected_start reason) = refl
  after_error-passed_on false (finalize status reason) = refl
  after_error-passed_on false (discard_rejected_start reason) = refl

  pub terminal_call-Adds :
      (s : AsyncEpisodeWriter w) (t : Terminal)
      → Adds s
          (terminal_call w s t).0
          (if_returned (terminal_call w s t).1 (terminal (passed_on s.core.has_error t)))
  unfolding terminal_call
  terminal_call-Adds s t =
      rw (← after_error-passed_on s.core.has_error t)
        (put_terminal-Adds s (after_error w s.core.has_error t))

  pub give_up-Adds :
      (s : AsyncEpisodeWriter w) → Adds s (give_up w s) (if has_room w s then stop ∷ [] else [])
  unfolding give_up
  give_up-Adds s = elim (Bool-cases (has_room w s)) [
    | inl e ↦ rw e (record { queue = refl; batch = refl; core = refl })
    | inr e ↦ rw e (nothing s)
  ]

  -- Closing, unless the writer is closed already.
  guarded-Adds :
      (s : AsyncEpisodeWriter w) (b : Bool) (t : AsyncEpisodeWriter w × Result Error (Unit {0}))
      → Adds s t.0 (if_returned t.1 stop)
      → let r = if b then (s, ok tt) else t in Adds s r.0 (if b then [] else if_returned r.1 stop)
  guarded-Adds s true t a = nothing s
  guarded-Adds s false t a = a

  abbrev closing : AsyncEpisodeWriter w → AsyncEpisodeWriter w × Result Error (Unit {0})
  closing s =
      if has_room w s
      then (record (put w s stop) { closed = true }, ok tt)
      else (record s { closed = true }, err shutdown_overflow)

  closing-Adds : (s : AsyncEpisodeWriter w) → Adds s (closing s).0 (if_returned (closing s).1 stop)
  closing-Adds s = elim (Bool-cases (has_room w s)) [
    | inl e ↦ rw e (record { queue = refl; batch = refl; core = refl })
    | inr e ↦ rw e (record { queue = sym (append-nil s.queue); batch = refl; core = refl })
  ]

  pub close_worker-Adds :
      (s : AsyncEpisodeWriter w)
      → Adds s (close_worker w s).0 (if s.closed then [] else if_returned (close_worker w s).1 stop)
  unfolding close_worker
  close_worker-Adds s = guarded-Adds s s.closed (closing s) (closing-Adds s)

  refused-Adds :
      (s : AsyncEpisodeWriter w) (b : Bool) (t : AsyncEpisodeWriter w × Result Error (Unit {0}))
      → Adds s t.0 (if_returned t.1 stop)
      → let r = if b then (s, err active_episode) else t in Adds s r.0 (if_returned r.1 stop)
  refused-Adds s true t a = nothing s
  refused-Adds s false t a = a

  open-Adds :
      (s : AsyncEpisodeWriter w) (b : Bool) (t : AsyncEpisodeWriter w × Result Error (Unit {0}))
      → b ≡ false
      → Adds s t.0 (if_returned t.1 stop)
      → let r = if b then (s, ok tt) else t in Adds s r.0 (if_returned r.1 stop)
  open-Adds s true t e a = cc
  open-Adds s false t e a = a

  pub close-Adds :
      (s : AsyncEpisodeWriter w)
      → Adds s (close w s).0 (if s.closed then [] else if_returned (close w s).1 stop)
  unfolding close close_worker
  close-Adds s = closed_first s.closed refl
    where
      inner : AsyncEpisodeWriter w × Result Error (Unit {0})
      inner = if s.is_started then (s, err active_episode) else close_worker w s

      closed_first :
          (b : Bool)
          → s.closed ≡ b
          → let r = if b then (s, ok tt) else inner in
            Adds s r.0 (if b then [] else if_returned r.1 stop)
      closed_first true e = nothing s
      closed_first false e =
          refused-Adds s s.is_started (close_worker w s)
            (open-Adds s s.closed (closing s) e (closing-Adds s))

  pub begin_episode-Adds :
      (s : AsyncEpisodeWriter w) (p : Payload)
      → Adds s (begin_episode w s p).0 (if_returned (begin_episode w s p).1 (call begin p))
  unfolding begin_episode
  begin_episode-Adds s p =
      let s0 : AsyncEpisodeWriter w = record s { is_started = true } in
      let t = enqueue w s0 begin p in
      begin_result s t.0 t.1 (call begin p) (enqueue-Adds s0 begin p)

  pub append_sample-Adds :
      (s : AsyncEpisodeWriter w) (p : Payload)
      → Adds s
          (append_sample_call w s p).0
          (if_true (append_sample_call w s p).1 (call append_sample p))
  unfolding append_sample_call
  append_sample-Adds s p =
      let a = enqueue-Adds s append_sample p in
      record { queue = a.queue; batch = a.batch; core = a.core }
