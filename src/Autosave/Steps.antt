-- ===== src/Autosave/Steps.antt =====
-- The runs of src/composables/useDocumentAutosave.ts: which handler may run next.
--
-- Any handler may run between the pieces of a flush, also after the loop of the flush has ended and
-- before `activeFlush` is cleared: other microtasks may be queued there.
use my_note_book.Base.{ℕ, Bool, true, false, not, ◌||◌, Option, some, ◌≡◌, is_some, if◌then◌else◌}
use my_note_book.Documents.{AppResult, ok, err, DocumentRecord}
use my_note_book.Autosave.Handlers.{
  ActiveFlush, awaiting, returned, finished, Env, Autosave, use_document_autosave, mark_dirty,
  flush, save_resolved, loop_resumed, flush_settled, reset_saved_state, handle_before_unload,
  close_requested, close_resumed, before_unmount,
}

-- A flush that will not save again and is still in `activeFlush`.
abbrev pub is_leaving : Option ActiveFlush → Bool
is_leaving (some (returned (err e))) = true
is_leaving (some (finished r)) = true
is_leaving _ = false

-- Whether the last call of `flush` was swallowed: it cleared the timer of an edit and joined a flush
-- that will not save again. `missed` says so of the calls before.
abbrev pub missed_after : Autosave → Bool → Bool
missed_after s missed =
    if is_some s.active_flush
    then (if is_leaving s.active_flush then s.dirty else missed)
    else false

-- The version of the edits that is known to be stored, after the answer of a save.
abbrev pub stored_after : AppResult DocumentRecord → ℕ → ℕ → ℕ
stored_after (ok document) captured stored = captured
stored_after (err e) captured stored = stored

-- `Step s a m t b n`: a handler takes `s` to `t`; `a` and `b` are the versions of the edits that the
-- service has stored before and after it, `m` and `n` whether a flush was swallowed since the last
-- edit or reset. Loading a document (a reset) counts as stored.
pub data Step (s : Autosave) (a : ℕ) (m : Bool) : Autosave → ℕ → Bool → Type 0 where
  marks : (env : Env) → Step s a m (mark_dirty env s) a false
  flushes : (env : Env) → Step s a m (flush env s) a (missed_after s m)
  timer_fires : (env : Env) → is_some s.timer ≡ true → Step s a m (flush env s) a (missed_after s m)
  saves :
      (env : Env) (captured : ℕ) (r : AppResult DocumentRecord)
      → s.active_flush ≡ some (awaiting captured)
      → Step s a m (save_resolved env r s) (stored_after r captured a) m
  loops : (env : Env) → Step s a m (loop_resumed env s) a m
  settles : Step s a m (flush_settled s) a m
  resets :
      (r : Option ℕ)
      → Step s a m (reset_saved_state r s) (reset_saved_state r s).dirty_version false
  unloads :
      (env : Env)
      → Step s a m (handle_before_unload env s) a (if s.dirty then missed_after s m else m)
  asks_to_close :
      (env : Env)
      → Step s a m
          (close_requested env s)
          a
          (if s.allow_window_close || not s.dirty then m else missed_after s m)
  goes_on_closing : Step s a m (close_resumed s) a m
  unmounts :
      (env : Env) → Step s a m (before_unmount env s) a (if s.dirty then missed_after s m else m)

-- The states that a freshly opened document, at the revision `r`, can get into.
pub data Reach (r : Option ℕ) : Autosave → ℕ → Bool → Type 0 where
  opened : Reach r (use_document_autosave r) 0 false
  next : {s t : Autosave} {a b : ℕ} {m n : Bool} → Reach r s a m → Step s a m t b n → Reach r t b n
