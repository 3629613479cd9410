-- ===== src/Autosave/Invariant.antt =====
-- What holds of the autosave state between two handlers (src/composables/useDocumentAutosave.ts).
use my_note_book.Base.{ℕ, ◌≤◌, Bool, true, false, Option, none, some, ◌≡◌, ◌⊎◌, is_some}
use my_note_book.Documents.{err}
use my_note_book.Autosave.Handlers.{
  status_saved, status_error, ActiveFlush, awaiting, returned, finished, Autosave,
}

abbrev is_awaiting : Option ActiveFlush → Bool
is_awaiting (some (awaiting captured)) = true
is_awaiting _ = false

-- A flush that will not save again.
abbrev is_over : Option ActiveFlush → Bool
is_over none = true
is_over (some (returned (err e))) = true
is_over (some (finished r)) = true
is_over _ = false

-- The version that the save in flight has captured.
abbrev captured_by : Option ActiveFlush → ℕ
captured_by (some (awaiting captured)) = captured
captured_by _ = 0

-- `a` is the version of the edits that the service has stored, and `m` whether the flush that had to
-- store the last edit was swallowed.
pub record IsSound (s : Autosave) (a : ℕ) (m : Bool) : Type 0 where
  pub scheduled :
      s.dirty ≡ true
      → is_over s.active_flush ≡ true
      → (is_some s.timer ≡ true) ⊎ ((s.status ≡ status_error) ⊎ (m ≡ true))
  pub clean_status : s.dirty ≡ false → s.status ≡ status_saved
  pub saved_clean : s.status ≡ status_saved → s.dirty ≡ false
  pub failed_error : s.status ≡ status_error → is_some s.error ≡ true
  pub one_save : s.saving ≡ true → is_awaiting s.active_flush ≡ true
  pub captured_old : captured_by s.active_flush ≤ s.dirty_version
  pub stored : s.dirty ≡ false → a ≡ s.dirty_version
  pub stored_old : a ≤ s.dirty_version
