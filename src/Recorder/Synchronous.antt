-- ===== src/Recorder/Synchronous.antt =====
-- A writer without a queue, beside the worker of src/episode_dataset/async_writer.py.
use embodied_hand_lab.Prelude.{
  ◌≡◌, Bool, true, false, ◌||◌, List, [], ◌∷◌, refl, if◌then◌else◌, Bool-cases, inl, inr, ap,
}
use embodied_hand_lab.Recorder.Calls.{
  Method, begin, append_sample, same_method, Outcome, done, expired, failed, EpisodeWriter, Item,
  call, terminal, stop, Terminal, finalize, discard_rejected_start, aborted,
}
use embodied_hand_lab.Recorder.Writer.{Core, AsyncEpisodeWriter}
use embodied_hand_lab.Recorder.Worker.{
  arguments, note_quality, note_expired, finish_call, execute_call, settle, execute,
}

module _ (w : EpisodeWriter) where
  open w use {Payload, Files, perform, write_quality, flush_pending, close_files}

  -- A writer without a queue: it stops at the first call that fails, and a flush that fails counts.
  pub data Action : Type 0 where
    item_action : Item Payload → Action
    flush_action : Action

  abbrev pub after_quality : Core w → Files → Bool → Core w
  after_quality c files written = record c {
    files = files;
    has_error = if written then c.has_error else true;
  }

  abbrev pub after_call : Core w → Files → Outcome → Method → Payload → Core w
  after_call c files done method payload = record c { files = files }
  after_call c files expired method payload =
      if same_method method append_sample
      then (let t = write_quality files payload in after_quality c t.0 t.2)
      else record c { files = files }
  after_call c files failed method payload = record {
    files = files;
    has_error = true;
    begin_failed = same_method method begin || c.begin_failed;
  }

  -- How an episode is closed: after a beginning that failed it is discarded, and after any other
  -- failure it is aborted, whatever the caller asked for. A start that is rejected is discarded.
  abbrev pub closed_as : Core w → Terminal → Terminal
  closed_as c (discard_rejected_start reason) = discard_rejected_start reason
  closed_as c (finalize status reason) = elim c.begin_failed [
    | true ↦ discard_rejected_start "async_episode_begin_failure"
    | false ↦ elim c.has_error [
      | true ↦ finalize aborted "async_data_write_failure"
      | false ↦ finalize status reason
    ]
  ]

  settle-closed_as : (c : Core w) (t : Terminal) → settle w c t ≡ closed_as c t
  unfolding settle
  settle-closed_as c (discard_rejected_start reason) = refl
  settle-closed_as c (finalize status reason) = elim (Bool-cases c.begin_failed) [
    | inl e ↦ rw e refl
    | inr e ↦ rw e (elim (Bool-cases c.has_error) [ inl h ↦ rw h refl | inr h ↦ rw h refl ])
  ]

  abbrev pub sync : Core w → Action → Core w
  sync c (item_action (call method payload)) =
      let args = arguments w c.files method payload in
      let t = perform c.files method args in
      if c.has_error then c else after_call c t.0 t.1 method args
  sync c (item_action (terminal t)) = record c { files = (close_files c.files (closed_as c t)).0 }
  sync c (item_action stop) = c
  sync c flush_action = let t = flush_pending c.files in after_quality c t.0 t.1

  abbrev pub sync_all : Core w → List Action → Core w
  sync_all c [] = c
  sync_all c (a ∷ as') = sync_all (sync c a) as'

  -- What a call leaves: the core of the synchronous writer, and the items that wait.
  pub record Leaves (s s' : AsyncEpisodeWriter w) (c : Core w) : Type 0 where
    pub core : s'.core ≡ c
    pub queue : s'.queue ≡ s.queue
    pub batch : s'.batch ≡ s.batch

  finish_call-Leaves :
      (s : AsyncEpisodeWriter w) (files : Files) (outcome : Outcome) (method : Method) (p : Payload)
      → Leaves s (finish_call w s files outcome method p) (after_call s.core files outcome method p)
  unfolding finish_call note_expired note_quality
  finish_call-Leaves s files done method p = record { core = refl; queue = refl; batch = refl }
  finish_call-Leaves s files failed method p = record { core = refl; queue = refl; batch = refl }
  finish_call-Leaves s files expired method p =
      elim (Bool-cases (same_method method append_sample)) [
        | inl e ↦ rw e (record { core = refl; queue = refl; batch = refl })
        | inr e ↦ rw e (record { core = refl; queue = refl; batch = refl })
      ]

  if-Leaves :
      (b : Bool) (s x y : AsyncEpisodeWriter w) (cx cy : Core w)
      → Leaves s x cx
      → Leaves s y cy
      → Leaves s (if b then x else y) (if b then cx else cy)
  if-Leaves true s x y cx cy h k = h
  if-Leaves false s x y cx cy h k = k

  pub execute-Leaves :
      (s : AsyncEpisodeWriter w) (item : Item Payload)
      → Leaves s (execute w s item) (sync s.core (item_action item))
  unfolding execute execute_call
  execute-Leaves s (terminal t) = record {
    core =
        ap (λ u. record s.core { files = (close_files s.core.files u).0 })
          (settle-closed_as s.core t);
    queue = refl;
    batch = refl;
  }
  execute-Leaves s stop = record { core = refl; queue = refl; batch = refl }
  execute-Leaves s (call method p) =
      let args = arguments w s.core.files method p in
      let t = perform s.core.files method args in
      if-Leaves s.core.has_error s s (finish_call w s t.0 t.1 method args) s.core
        (after_call s.core t.0 t.1 method args) (record { core = refl; queue = refl; batch = refl })
        (finish_call-Leaves s t.0 t.1 method args)
