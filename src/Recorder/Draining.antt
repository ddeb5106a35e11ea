-- ===== src/Recorder/Draining.antt =====
-- The worker of src/episode_dataset/async_writer.py gets through what waits.
use embodied_hand_lab.Prelude.{
  ℕ, zero, suc, ◌+◌, ◌-◌, ◌*◌, ◌≤◌, ◌≡◌, Bool, true, false, List, [], ◌∷◌, arith, refl,
  if◌then◌else◌, take, drop, length, length-take, length-drop, Bool-cases, inl, inr, if_keeps, ap,
  ◌∙◌, sym, All,
}
use mathlib.Core.List.{append-nil}
use embodied_hand_lab.Recorder.Calls.{
  Method, append_sample, same_method, Outcome, done, expired, failed, EpisodeWriter, Item, call,
  terminal, stop,
}
use embodied_hand_lab.Recorder.Writer.{AsyncEpisodeWriter}
use embodied_hand_lab.Recorder.Worker.{
  arguments, note_quality, note_expired, finish_call, execute_call, execute, work, work_on, Event,
  work_event, step, run,
}
use embodied_hand_lab.Recorder.Synchronous.{execute-Leaves, Action, item_action, sync_all}
use embodied_hand_lab.Recorder.Refinement.{run-Refines, pending, items, actions, accepted}
use embodied_hand_lab.Recorder.Refinement.{first_action}
use embodied_hand_lab.Prelude.{◌++◌}

-- Not the `None` that stops the worker.
abbrev pub NotStop : {P : Type 0} → Item P → Type 0
NotStop stop = ⊥
NotStop _ = Unit

All-take : {P : Type 0} (n : ℕ) (xs : List (Item P)) → All NotStop xs → All NotStop (take n xs)
All-take zero xs h = tt
All-take (suc n) [] h = tt
All-take (suc n) (x ∷ xs) h = (h.0, All-take n xs h.1)

All-drop : {P : Type 0} (n : ℕ) (xs : List (Item P)) → All NotStop xs → All NotStop (drop n xs)
All-drop zero xs h = h
All-drop (suc n) [] h = tt
All-drop (suc n) (x ∷ xs) h = All-drop n xs h.1

else_keeps {ℓ κ} :
    {A : Type ℓ} (P : A → Type κ) (b : Bool) (x y : A) → b ≡ false → P y → P (if b then x else y)
else_keeps P true x y e h = cc
else_keeps P false x y e h = h

module _ (w : EpisodeWriter) where
  open w use {Payload, Files}

  finish_call-stopping :
      (s : AsyncEpisodeWriter w) (files : Files) (outcome : Outcome) (method : Method) (p : Payload)
      → (finish_call w s files outcome method p).stopping ≡ s.stopping
  unfolding finish_call note_expired note_quality
  finish_call-stopping s files done method p = refl
  finish_call-stopping s files failed method p = refl
  finish_call-stopping s files expired method p =
      elim (Bool-cases (same_method method append_sample)) [ inl e ↦ rw e refl | inr e ↦ rw e refl ]

  execute-stopping :
      (s : AsyncEpisodeWriter w) (item : Item Payload)
      → NotStop item
      → (execute w s item).stopping ≡ s.stopping
  unfolding execute execute_call
  execute-stopping s (terminal t) n = refl
  execute-stopping s stop n = absurd n
  execute-stopping s (call method p) n =
      let args = arguments w s.core.files method p in
      let t = w.perform s.core.files method args in
      if_keeps (λ (x : AsyncEpisodeWriter w). x.stopping ≡ s.stopping) s.core.has_error s
        (finish_call w s t.0 t.1 method args) refl (finish_call-stopping s t.0 t.1 method args)

  -- The worker runs, and no item that waits stops it.
  pub record IsRunning (s : AsyncEpisodeWriter w) : Type 0 where
    pub running : s.stopping ≡ false
    pub batch_goes : All NotStop s.batch
    pub queue_goes : All NotStop s.queue

  -- The turns that are left.
  abbrev pub effort : AsyncEpisodeWriter w → ℕ
  effort s = 2 * length s.queue + length s.batch

  record Turns (s s' : AsyncEpisodeWriter w) : Type 0 where
    goes_on : IsRunning s'
    less : effort s' ≤ effort s - 1

  work_on-Turns :
      (s : AsyncEpisodeWriter w) (batch : List (Item Payload))
      → s.batch ≡ batch
      → IsRunning s
      → Turns s (work_on w s batch)
  unfolding work_on
  work_on-Turns s (item ∷ rest) e v =
      let s' : AsyncEpisodeWriter w = record s { batch = rest } in
      let goes = rw e at v.batch_goes in
      let l = execute-Leaves w s' item in
      let counted = ap length e in
      record {
        goes_on = record {
          running = execute-stopping s' item goes.0 ∙ v.running;
          batch_goes = rw (l.batch) (goes.1);
          queue_goes = rw (l.queue) (v.queue_goes);
        };
        less = rw (l.batch, l.queue) (omega arith);
      }
  work_on-Turns s [] e v =
      let n = suc (s.batch_size - 1) in
      let t : AsyncEpisodeWriter w = record s { batch = take n s.queue; queue = drop n s.queue } in
      let counted = ap length e in
      let taken = length-take n s.queue in
      let left = length-drop n s.queue in
      let turned : Turns s t = record {
        goes_on = record {
          running = v.running;
          batch_goes = All-take n s.queue v.queue_goes;
          queue_goes = All-drop n s.queue v.queue_goes;
        };
        less = omega arith;
      } in
      else_keeps (Turns s) s.stopping s t v.running turned

  -- `n` turns of the worker alone.
  abbrev pub turns : ℕ → List (Event w)
  turns zero = []
  turns (suc n) = work_event ∷ turns n

  run-turns :
      (n : ℕ) (s : AsyncEpisodeWriter w)
      → IsRunning s
      → effort s ≤ n
      → effort (run w s (turns n)) ≡ 0
  unfolding run step work
  run-turns zero s v h = omega arith
  run-turns (suc n) s v h =
      let t = work_on-Turns s s.batch refl v in
      run-turns n (work_on w s s.batch) t.goes_on (omega (arith, t.less))

  nothing_brought : (n : ℕ) (s : AsyncEpisodeWriter w) → accepted w s (turns n) ≡ []
  nothing_brought zero s = refl
  nothing_brought (suc n) s = nothing_brought n (step w s work_event)

  -- The actions that execute these items.
  abbrev pub as_actions : List (Item Payload) → List (Action w)
  as_actions [] = []
  as_actions (x ∷ xs) = item_action x ∷ as_actions xs

  no_items : (xs : List (Item Payload)) → length xs ≡ 0 → xs ≡ []
  no_items [] h = refl
  no_items (x ∷ xs) h = absurd (omega arith)

  -- A turn of the worker alone does nothing but execute an item.
  turn-actions :
      (b : List (Item Payload)) (later : List (Action w))
      → later ≡ as_actions (items w later)
      → first_action w b ++ later ≡ as_actions (items w (first_action w b ++ later))
  turn-actions [] later h = h
  turn-actions (x ∷ xs) later h = ap (λ l. item_action x ∷ l) h

  turns-actions :
      (n : ℕ) (s : AsyncEpisodeWriter w)
      → actions w s (turns n) ≡ as_actions (items w (actions w s (turns n)))
  turns-actions zero s = refl
  turns-actions (suc n) s = turn-actions s.batch _ (turns-actions n (step w s work_event))

  -- If the worker has not been stopped and no `None` waits, then within two turns for each item of the
  -- queue and one for each of its batch nothing waits any more, and files and errors are what a writer
  -- without a queue leaves that executes everything that waited, one item after the other.
  pub worker_drains :
      (n : ℕ) (s : AsyncEpisodeWriter w)
      → IsRunning s
      → effort s ≤ n
      → (pending w (run w s (turns n)) ≡ [])
        × ((run w s (turns n)).core ≡ sync_all w s.core (as_actions (pending w s)))
  worker_drains n s v h =
      let s' = run w s (turns n) in
      let ended = run-turns n s v h in
      let batch = no_items s'.batch (omega arith) in
      let queue = no_items s'.queue (omega arith) in
      let empty : pending w s' ≡ [] = rw (batch, queue) refl in
      let order = (run-Refines w s (turns n)).0 in
      let all = rw (empty, nothing_brought n s) at order in
      let done =
        sym (append-nil (items w (actions w s (turns n)))) ∙ all ∙ append-nil (pending w s) in
      (
        empty,
        (run-Refines w s (turns n)).1
            ∙ ap (λ l. sync_all w s.core l) (turns-actions n s)
            ∙ ap (λ l. sync_all w s.core (as_actions l)) done,
      )
