-- ===== src/Recorder/Bounded.antt =====
-- The bounds and the counters of src/episode_dataset/async_writer.py: what each call
-- and each turn at the lock of the counters keeps.
use embodied_hand_lab.Prelude.{
  ℕ, zero, suc, ◌+◌, ◌≤◌, ◌≡◌, List, [], ◌∷◌, ◌++◌, arith, take, drop, length, length-append,
  take-append-drop, Bool-cases, inl, inr, ap, ◌∙◌, sym,
}
use embodied_hand_lab.Recorder.Calls.{
  Method, begin, append_raw, append_raw_batch, append_raw_camera, append_sample, EpisodeWriter,
  Item, call, terminal, stop, ByMethod, increment,
}
use embodied_hand_lab.Recorder.Writer.{
  AsyncEpisodeWriter, enqueue, enqueue_open, has_room, Note, counted, refused, note, note_from,
}

-- The sum of a dictionary.
abbrev pub sum_of : ByMethod → ℕ
sum_of m = m.begins + m.raws + m.batches + m.cameras + m.samples

pub sum_of-increment : (method : Method) (m : ByMethod) → sum_of (increment method m) ≡ sum_of m + 1
unfolding increment
sum_of-increment begin m = omega arith
sum_of-increment append_raw m = omega arith
sum_of-increment append_raw_batch m = omega arith
sum_of-increment append_raw_camera m = omega arith
sum_of-increment append_sample m = omega arith

module _ {P : Type 0} where
  -- The calls among the items.
  abbrev pub calls : List (Item P) → ℕ
  calls [] = 0
  calls (call method p ∷ rest) = suc (calls rest)
  calls (terminal t ∷ rest) = calls rest
  calls (stop ∷ rest) = calls rest

  pub calls-append : (xs ys : List (Item P)) → calls (xs ++ ys) ≡ calls xs + calls ys
  calls-append [] ys = omega arith
  calls-append (call method p ∷ xs) ys = omega (arith, calls-append xs ys)
  calls-append (terminal t ∷ xs) ys = calls-append xs ys
  calls-append (stop ∷ xs) ys = calls-append xs ys

  pub calls-take-drop :
      (n : ℕ) (xs : List (Item P)) → calls (take n xs) + calls (drop n xs) ≡ calls xs
  calls-take-drop n xs =
      sym (calls-append (take n xs) (drop n xs)) ∙ ap calls (take-append-drop n xs)

-- The calls that were put and are not counted yet.
abbrev pub owed : List Note → ℕ
owed [] = 0
owed (counted method ∷ rest) = suc (owed rest)
owed (refused method ∷ rest) = owed rest

owed-append : (xs ys : List Note) → owed (xs ++ ys) ≡ owed xs + owed ys
owed-append [] ys = omega arith
owed-append (counted method ∷ xs) ys = omega (arith, owed-append xs ys)
owed-append (refused method ∷ xs) ys = owed-append xs ys

module _ (w : EpisodeWriter) where
  open w use {Payload, Files}

  -- The queue is bounded, and the counters account for each call.
  pub record IsBounded (s : AsyncEpisodeWriter w) : Type 0 where
    pub depth : length s.queue ≤ s.capacity
    pub max_depth : s.metrics.queue_max_depth ≤ s.capacity
    pub enqueued : sum_of s.metrics.enqueued_by_method ≡ s.metrics.enqueued_count
    pub written : sum_of s.metrics.written_by_method ≡ s.metrics.completed_count
    pub dropped : sum_of s.metrics.drop_by_method ≡ s.metrics.drop_count
    pub overflows : s.metrics.overflow_count ≤ s.metrics.drop_count
    pub expired_frames :
        s.metrics.drop_count ≤ s.metrics.overflow_count + s.metrics.ring_reference_expired_count
    pub rings : s.metrics.ring_overwrite_drop_count ≡ s.metrics.ring_reference_expired_count
    pub accounts :
        s.metrics.completed_count + s.metrics.drop_count + calls s.batch + calls s.queue
        ≤ s.metrics.enqueued_count + s.metrics.overflow_count + owed s.notes

  pub enqueue_open-IsBounded :
      (s : AsyncEpisodeWriter w) (method : Method) (p : Payload)
      → IsBounded s
      → IsBounded (enqueue_open w s method p).0
  unfolding enqueue_open
  enqueue_open-IsBounded s method p v =
      let grown = length-append s.queue (call method p ∷ []) in
      let more = calls-append s.queue (call method p ∷ []) in
      elim (Bool-cases (has_room w s)) [
        | inl r ↦ rw r (record {
          depth = ground arith;
          max_depth = v.max_depth;
          enqueued = v.enqueued;
          written = v.written;
          dropped = v.dropped;
          overflows = v.overflows;
          expired_frames = v.expired_frames;
          rings = v.rings;
          accounts = omega (arith, v.accounts);
        })
        | inr r ↦ rw r (record {
          depth = v.depth;
          max_depth = v.max_depth;
          enqueued = v.enqueued;
          written = v.written;
          dropped = v.dropped;
          overflows = v.overflows;
          expired_frames = v.expired_frames;
          rings = v.rings;
          accounts = v.accounts;
        })
      ]

  -- A turn at the lock of the counters.
  note-IsBounded :
      (s : AsyncEpisodeWriter w) (x : Note) (notes : List Note)
      → IsBounded s
      → owed s.notes ≡ owed (x ∷ []) + owed notes
      → IsBounded (note w (record s { notes = notes }) x)
  unfolding note
  note-IsBounded s (counted method) notes v o =
      let e = sum_of-increment method s.metrics.enqueued_by_method in
      record {
        depth = v.depth;
        max_depth = omega (arith, v.depth, v.max_depth);
        enqueued = omega (arith, v.enqueued);
        written = v.written;
        dropped = v.dropped;
        overflows = v.overflows;
        expired_frames = v.expired_frames;
        rings = v.rings;
        accounts = omega (arith, v.accounts);
      }
  note-IsBounded s (refused method) notes v o =
      let d = sum_of-increment method s.metrics.drop_by_method in
      record {
        depth = v.depth;
        max_depth = v.max_depth;
        enqueued = v.enqueued;
        written = v.written;
        dropped = omega (arith, v.dropped);
        overflows = omega (arith, v.overflows);
        expired_frames = omega (arith, v.expired_frames);
        rings = v.rings;
        accounts = omega (arith, v.accounts);
      }

  owed-cons : (x : Note) (xs : List Note) → owed (x ∷ xs) ≡ owed (x ∷ []) + owed xs
  owed-cons (counted method) xs = omega arith
  owed-cons (refused method) xs = omega arith

  pub note_from-IsBounded :
      (s : AsyncEpisodeWriter w) (seen : List Note) (n : ℕ) (xs : List Note)
      → IsBounded s
      → owed s.notes ≡ owed seen + owed xs
      → IsBounded (note_from w s seen n xs)
  unfolding note_from
  note_from-IsBounded s seen n [] v o = v
  note_from-IsBounded s seen zero (x ∷ rest) v o =
      note-IsBounded s x (seen ++ rest) v
        (omega (arith, o, owed-append seen rest, owed-cons x rest))
  note_from-IsBounded s seen (suc n) (x ∷ rest) v o =
      note_from-IsBounded s (x ∷ seen) n rest v
        (omega (arith, o, owed-cons x rest, owed-cons x seen))

  pub enqueue-IsBounded :
      (s : AsyncEpisodeWriter w) (method : Method) (p : Payload)
      → IsBounded s
      → IsBounded (enqueue w s method p).0
  unfolding enqueue
  enqueue-IsBounded s method p v = let t = enqueue_open-IsBounded s method p v in ground arith

  -- Only the lists differ.
  pub IsBounded-same :
      (s s' : AsyncEpisodeWriter w)
      → IsBounded s
      → s'.capacity ≡ s.capacity
      → s'.metrics ≡ s.metrics
      → s'.notes ≡ s.notes
      → length s'.queue ≤ s.capacity
      → calls s'.batch + calls s'.queue ≤ calls s.batch + calls s.queue
      → IsBounded s'
  IsBounded-same s s' v c m o q l = record {
    depth = rw c q;
    max_depth = rw (c, m) v.max_depth;
    enqueued = rw m v.enqueued;
    written = rw m v.written;
    dropped = rw m v.dropped;
    overflows = rw m v.overflows;
    expired_frames = rw m v.expired_frames;
    rings = rw m v.rings;
    accounts = rw (m, o) (omega (arith, v.accounts));
  }
