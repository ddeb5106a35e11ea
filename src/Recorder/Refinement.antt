-- ===== src/Recorder/Refinement.antt =====
-- The asynchronous writer of src/episode_dataset/async_writer.py, beside a writer without a queue.
use embodied_hand_lab.Prelude.{
  ℕ, suc, ◌-◌, ◌≡◌, List, [], ◌∷◌, ◌++◌, refl, if◌then◌else◌, ap, sym, ◌∙◌, take-append-drop,
  Bool-cases, inl, inr,
}
use mathlib.Core.List.{append-nil, append_assoc}
use embodied_hand_lab.Recorder.Calls.{
  begin, append_sample, EpisodeWriter, Item, call, terminal, stop,
}
use embodied_hand_lab.Recorder.Writer.{
  Core, AsyncEpisodeWriter, new, enqueue, begin_episode, append_sample_call, terminal_call, close,
  close_worker, has_room,
}
use embodied_hand_lab.Recorder.Worker.{
  work, work_on, flush, Event, enqueue_event, put_event, note_event, put_terminal_event,
  put_stop_event, begin_event, sample_event, terminal_event, give_up_event, close_event,
  close_worker_event, work_event, flush_event, step, run,
}
use embodied_hand_lab.Recorder.Synchronous.{
  Action, item_action, flush_action, sync, sync_all, execute-Leaves,
}
use embodied_hand_lab.Recorder.Producers.{
  if_true, if_returned, Adds, enqueue-Adds, enqueue_open-Adds, note_from-Adds, put_terminal-Adds,
  put_stop-Adds, passed_on, terminal_call-Adds, give_up-Adds, close_worker-Adds, close-Adds,
  begin_episode-Adds, append_sample-Adds,
}
use embodied_hand_lab.Recorder.Writer.{enqueue_open, put_terminal}
use embodied_hand_lab.Prelude.{ok}

module _ (w : EpisodeWriter) where
  open w use {Payload, Files, perform, write_quality, flush_pending, close_files}

  -- The items that wait: those of the batch, and behind them the queue.
  abbrev pub pending : AsyncEpisodeWriter w → List (Item Payload)
  pending s = s.batch ++ s.queue

  -- The item that an event brings: one that its caller is told was accepted, or the `None` of a
  -- worker that is told to stop.
  abbrev pub accepted_of : AsyncEpisodeWriter w → Event w → List (Item Payload)
  accepted_of s (enqueue_event method p) = if_true w (enqueue w s method p).1 (call method p)
  accepted_of s (put_event method p) = if_true w (ok (enqueue_open w s method p).1) (call method p)
  accepted_of s (note_event n) = []
  accepted_of s (begin_event p) = if_returned w (begin_episode w s p).1 (call begin p)
  accepted_of s (sample_event p) = if_true w (append_sample_call w s p).1 (call append_sample p)
  accepted_of s (terminal_event t) =
      if_returned w (terminal_call w s t).1 (terminal (passed_on w s.core.has_error t))
  accepted_of s (put_terminal_event t) = if_returned w (put_terminal w s t).1 (terminal t)
  accepted_of s put_stop_event = if has_room w s then stop ∷ [] else []
  accepted_of s give_up_event = if has_room w s then stop ∷ [] else []
  accepted_of s close_event = if s.closed then [] else if_returned w (close w s).1 stop
  accepted_of s close_worker_event =
      if s.closed then [] else if_returned w (close_worker w s).1 stop
  accepted_of s work_event = []
  accepted_of s flush_event = []

  abbrev pub first_action : List (Item Payload) → List (Action w)
  first_action [] = []
  first_action (item ∷ rest) = item_action item ∷ []

  -- What the worker does at an event.
  abbrev pub actions_of : AsyncEpisodeWriter w → Event w → List (Action w)
  actions_of s work_event = first_action s.batch
  actions_of s flush_event = flush_action ∷ []
  actions_of s _ = []

  -- The items among the actions.
  abbrev pub items : List (Action w) → List (Item Payload)
  items [] = []
  items (item_action item ∷ rest) = item ∷ items rest
  items (flush_action ∷ rest) = items rest

  work_on-Refines :
      (s : AsyncEpisodeWriter w) (batch : List (Item Payload))
      → s.batch ≡ batch
      → (items (first_action batch) ++ pending (work_on w s batch) ≡ (batch ++ s.queue) ++ [])
        × ((work_on w s batch).core ≡ sync_all w s.core (first_action batch))
  unfolding work_on
  work_on-Refines s (item ∷ rest) e =
      let s' : AsyncEpisodeWriter w = record s { batch = rest } in
      let v = execute-Leaves w s' item in (rw (v.batch, v.queue, append-nil) refl, v.core)
  work_on-Refines s [] e = elim (Bool-cases s.stopping) [
    | inl h ↦ (
      rw (h, work_on) (ap (λ b. b ++ s.queue) e ∙ sym (append-nil s.queue)),
      rw (h, work_on) refl,
    )
    | inr h ↦ (
      rw (h, work_on)
          (take-append-drop (suc (s.batch_size - 1)) s.queue ∙ sym (append-nil s.queue)),
      rw (h, work_on) refl,
    )
  ]

  -- From what is brought, and with no action.
  Adds-Refines :
      (s s' : AsyncEpisodeWriter w) (new : List (Item Payload))
      → Adds w s s' new
      → (pending s' ≡ pending s ++ new) × (s'.core ≡ s.core)
  Adds-Refines s s' new a = (rw (a.queue, a.batch) (sym (append_assoc s.batch s.queue new)), a.core)

  -- A step keeps the order of the items, and does to the files what the writer without a queue does.
  step-Refines :
      (s : AsyncEpisodeWriter w) (e : Event w)
      → (items (actions_of s e) ++ pending (step w s e) ≡ pending s ++ accepted_of s e)
        × ((step w s e).core ≡ sync_all w s.core (actions_of s e))
  unfolding step work flush
  step-Refines s (enqueue_event method p) = Adds-Refines s _ _ (enqueue-Adds w s method p)
  step-Refines s (put_event method p) = Adds-Refines s _ _ (enqueue_open-Adds w s method p)
  step-Refines s (note_event n) = Adds-Refines s _ _ (note_from-Adds w s [] n s.notes)
  step-Refines s (begin_event p) = Adds-Refines s _ _ (begin_episode-Adds w s p)
  step-Refines s (sample_event p) = Adds-Refines s _ _ (append_sample-Adds w s p)
  step-Refines s (terminal_event t) = Adds-Refines s _ _ (terminal_call-Adds w s t)
  step-Refines s (put_terminal_event t) = Adds-Refines s _ _ (put_terminal-Adds w s t)
  step-Refines s put_stop_event = Adds-Refines s _ _ (put_stop-Adds w s)
  step-Refines s give_up_event = Adds-Refines s _ _ (give_up-Adds w s)
  step-Refines s close_event = Adds-Refines s _ _ (close-Adds w s)
  step-Refines s close_worker_event = Adds-Refines s _ _ (close_worker-Adds w s)
  step-Refines s work_event = work_on-Refines s s.batch refl
  step-Refines s flush_event = (sym (append-nil (pending s)), refl)

  -- The items that are accepted over the events, and what the worker does.
  abbrev pub accepted : AsyncEpisodeWriter w → List (Event w) → List (Item Payload)
  accepted s [] = []
  accepted s (e ∷ es) = accepted_of s e ++ accepted (step w s e) es

  abbrev pub actions : AsyncEpisodeWriter w → List (Event w) → List (Action w)
  actions s [] = []
  actions s (e ∷ es) = actions_of s e ++ actions (step w s e) es

  items-append : (xs ys : List (Action w)) → items (xs ++ ys) ≡ items xs ++ items ys
  items-append [] ys = refl
  items-append (item_action item ∷ xs) ys = ap (λ l. item ∷ l) (items-append xs ys)
  items-append (flush_action ∷ xs) ys = items-append xs ys

  sync_all-append :
      (c : Core w) (xs ys : List (Action w))
      → sync_all w c (xs ++ ys) ≡ sync_all w (sync_all w c xs) ys
  sync_all-append c [] ys = refl
  sync_all-append c (x ∷ xs) ys = sync_all-append (sync w c x) xs ys

  pub run-Refines :
      (s : AsyncEpisodeWriter w) (es : List (Event w))
      → (items (actions s es) ++ pending (run w s es) ≡ pending s ++ accepted s es)
        × ((run w s es).core ≡ sync_all w s.core (actions s es))
  unfolding run
  run-Refines s [] = (sym (append-nil (pending s)), refl)
  run-Refines s (e ∷ es) =
      let (o, c) = step-Refines s e in
      let (os, cs) = run-Refines (step w s e) es in
      (
        ap (λ l. l ++ pending (run w (step w s e) es))
              (items-append (actions_of s e) (actions (step w s e) es))
            ∙ append_assoc (items (actions_of s e)) _ _
            ∙ ap (λ l. items (actions_of s e) ++ l) os
            ∙ sym (append_assoc (items (actions_of s e)) (pending (step w s e)) _)
            ∙ ap (λ l. l ++ accepted (step w s e) es) o
            ∙ append_assoc (pending s) (accepted_of s e) _,
        cs
            ∙ ap (λ x. sync_all w x (actions (step w s e) es)) c
            ∙ sym (sync_all-append s.core (actions_of s e) (actions (step w s e) es)),
      )

  -- The asynchronous writer refines one without a queue. However the threads take turns, the items
  -- that the worker has executed and behind them those that still wait are exactly the items that
  -- were accepted, in the order in which they were accepted: none is lost, repeated or overtaken.
  -- And the files are what a writer leaves that executes these items one after the other, with the
  -- flushes where they came, and that passes no call on any more once a call or a flush has failed;
  -- an episode finalized after such a failure is closed as aborted, or discarded if it was the
  -- beginning of an episode that failed.
  pub run_refines_sync :
      (capacity batch_size : ℕ) (files : Files) (es : List (Event w))
      → let s = new w capacity batch_size files in
        (items (actions s es) ++ pending (run w s es) ≡ accepted s es)
        × ((run w s es).core ≡ sync_all w s.core (actions s es))
  unfolding new
  run_refines_sync capacity batch_size files es = run-Refines (new w capacity batch_size files) es
