-- ===== src/Autosave/Saving.antt =====
-- Whole saves of src/composables/useDocumentAutosave.ts, from the call of `flush` to its end.
use my_note_book.Base.{ℕ, ◌+◌, true, false, Option, none, some, [], ◌∷◌, ◌++◌, ◌≡◌, ◌≢◌, arith}
use my_note_book.Documents.{AppError, ok, err, DocumentRecord}
use my_note_book.Autosave.Handlers.{
  status_saved, status_dirty, status_saving, status_error, awaiting, finished, FlushResult,
  DocumentAutosaveSnapshot, Env, Autosave, save_input, begin_save, mark_dirty, flush_round, flush,
  save_resolved, loop_resumed, flush_settled, reset_saved_state,
}

module _ (env : Env) (snapshot : DocumentAutosaveSnapshot) (s : Autosave)
    (ready : env.service_ready ≡ true) (filled : env.snapshot ≡ some snapshot) where
  -- With the service ready, a snapshot at hand and no flush running, a flush of a dirty document
  -- sends one save with the known revision; if the service accepts it and no edit came in between,
  -- the flush ends with the document saved, clean, at the service's revision, with no flush
  -- running and no timer set.
  pub flush-saves :
      (d : DocumentRecord)
      → s.active_flush ≡ none
      → s.dirty ≡ true
      → let sending = flush env s in
        let t = flush_settled (loop_resumed env (save_resolved env (ok d) sending)) in
        (sending.sent ≡ s.sent ++ save_input env snapshot s.revision ∷ [])
        × (t.sent ≡ sending.sent)
        × (t.status ≡ status_saved)
        × (t.dirty ≡ false)
        × (t.saving ≡ false)
        × (t.error ≡ none)
        × (t.revision ≡ some d.revision)
        × (t.active_flush ≡ none)
        × (t.timer ≡ none)
  unfolding flush_settled loop_resumed save_resolved flush flush_round begin_save
  flush-saves d idle dirty = ground arith

  -- If edits came while the save of version `v` was in flight, the accepted save leaves the
  -- document dirty, and the same flush goes on to save the newer version with the revision that
  -- the service has just returned.
  pub save-chains :
      (d : DocumentRecord) (v : ℕ)
      → s.active_flush ≡ some (awaiting v)
      → v ≢ s.dirty_version
      → let t = loop_resumed env (save_resolved env (ok d) s) in
        (t.dirty ≡ true)
        × (t.status ≡ status_saving)
        × (t.active_flush ≡ some (awaiting s.dirty_version))
        × (t.sent ≡ s.sent ++ save_input env snapshot (some d.revision) ∷ [])
        × (t.saved ≡ s.saved ++ d ∷ [])
  unfolding loop_resumed save_resolved flush_round begin_save
  save-chains d v flying edited = ground arith

-- A refused save keeps the document dirty at its revision and shows the service's error; its flush
-- ends without another attempt and leaves the timer as it was.
pub save-refused :
    (env : Env) (s : Autosave) (e : AppError) (v : ℕ)
    → s.active_flush ≡ some (awaiting v)
    → let t = flush_settled (loop_resumed env (save_resolved env (err e) s)) in
      (t.dirty ≡ true)
      × (t.status ≡ status_error)
      × (t.error ≡ some e)
      × (t.saving ≡ false)
      × (t.revision ≡ s.revision)
      × (t.sent ≡ s.sent)
      × (t.saved ≡ s.saved)
      × (t.timer ≡ s.timer)
      × (t.active_flush ≡ none)
unfolding flush_settled loop_resumed save_resolved
save-refused env s e v flying = ground arith

-- A reset while a save of an older version is in flight does not stop that save: its answer sets
-- the revision to the one of the old save, whatever revision the reset was given, marks the state
-- dirty again and sets the timer.
pub reset-save_in_flight :
    (env : Env) (s : Autosave) (r : Option ℕ) (d : DocumentRecord) (v : ℕ)
    → s.active_flush ≡ some (awaiting v)
    → v ≢ s.dirty_version + 1
    → let t = save_resolved env (ok d) (reset_saved_state r s) in
      (t.revision ≡ some d.revision)
      × (t.dirty ≡ true)
      × (t.status ≡ status_dirty)
      × (t.timer ≡ some env.debounce_ms)
unfolding save_resolved reset_saved_state
reset-save_in_flight env s r d v flying older = ground arith

-- A flush that is called after the running flush has left its loop, and before `activeFlush` is
-- cleared, starts no save and clears the timer: an edit made in between is then neither scheduled
-- nor in flight, and no error is shown.
pub flush-finished_gap :
    (env : Env) (s : Autosave) (r : FlushResult)
    → s.active_flush ≡ some (finished r)
    → let t = flush_settled (flush env (mark_dirty env s)) in
      (t.dirty ≡ true)
      × (t.timer ≡ none)
      × (t.active_flush ≡ none)
      × (t.error ≡ none)
      × (t.sent ≡ s.sent)
unfolding flush_settled flush flush_round mark_dirty
flush-finished_gap env s r over = ground arith
