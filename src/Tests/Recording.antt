-- ===== src/Tests/Recording.antt =====
-- An episode of src/episode_dataset/async_writer.py whose files are the list of the numbers written; the
-- number 99 cannot be written, and 50 has lost its frame.
use embodied_hand_lab.Prelude.{
  ℕ, ◌≡◌, refl, true, List, [], ◌∷◌, ◌++◌, arith, length, ◌==◌, if◌then◌else◌,
}
use embodied_hand_lab.Recorder.Calls.{
  append_raw, append_sample, done, expired, failed, finalize, completed, EpisodeWriter, call,
}
use embodied_hand_lab.Recorder.Writer
use embodied_hand_lab.Recorder.Writer.{AsyncEpisodeWriter}
use embodied_hand_lab.Recorder.Worker
use embodied_hand_lab.Recorder.Worker.{
  Event, enqueue_event, note_event, begin_event, sample_event, terminal_event, close_worker_event,
  work_event, flush_event,
}
use embodied_hand_lab.Recorder.Refinement.{items, actions, pending, accepted, run_refines_sync}
use embodied_hand_lab.Recorder.Bounded.{IsBounded}
use embodied_hand_lab.Recorder.Accounts.{writer_run-IsBounded}
use embodied_hand_lab.Recorder.Draining.{turns, worker_drains}

abbrev numbers : EpisodeWriter
numbers = record {
  Payload = ℕ;
  Files = List ℕ;
  sample_count = λ files. length files;
  numbered = λ p n. p;
  perform = λ files method p.
      if p == 99
      then (files, failed)
      else if p == 50
      then (files, expired)
      else (files ++ (p ∷ []), done);
  write_quality = λ files p. (files ++ (0 ∷ []), 1, true);
  flush_pending = λ files. (files, true);
  close_files = λ files t. (files, true);
}

-- The queue holds two items, so the third call finds it full.
abbrev events : List (Event numbers)
events =
    begin_event 1
    ∷ sample_event 2
    ∷ enqueue_event append_raw 3
    ∷ work_event
    ∷ note_event 1
    ∷ work_event
    ∷ sample_event 50
    ∷ work_event
    ∷ work_event
    ∷ work_event
    ∷ enqueue_event append_raw 99
    ∷ enqueue_event append_raw 5
    ∷ flush_event
    ∷ work_event
    ∷ work_event
    ∷ work_event
    ∷ terminal_event (finalize completed "done")
    ∷ []

abbrev after : AsyncEpisodeWriter numbers
after = Worker.run numbers (Writer.new numbers 2 8 []) events

written_files : after.core.files ≡ 1 ∷ 2 ∷ 0 ∷ []
unfolding Worker.run Worker.step Worker.work Worker.flush Writer.new Writer.begin_episode
    Writer.append_sample_call Writer.enqueue Writer.terminal_call Writer.note_from
written_files = refl

run_refines_sync_example :
    items numbers (actions numbers (Writer.new numbers 2 8 []) events) ++ pending numbers after
    ≡ accepted numbers (Writer.new numbers 2 8 []) events
run_refines_sync_example = (run_refines_sync numbers 2 8 [] events).0

writer_run-IsBounded_example : IsBounded numbers after
writer_run-IsBounded_example = writer_run-IsBounded numbers 2 8 [] events

abbrev waiting : AsyncEpisodeWriter numbers
waiting = record (Writer.new numbers 4 2 []) {
  queue = call append_raw 4 ∷ call append_sample 5 ∷ call append_raw 6 ∷ [];
  batch = call append_raw 3 ∷ [];
}

worker_drains_example : pending numbers (Worker.run numbers waiting (turns numbers 7)) ≡ []
unfolding Writer.new
worker_drains_example =
    (worker_drains numbers 7 waiting
      (record { running = refl; batch_goes = omega arith; queue_goes = omega arith })
      (omega arith)).0
