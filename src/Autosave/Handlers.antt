-- ===== src/Autosave/Handlers.antt =====
-- The handlers of src/composables/useDocumentAutosave.ts.
use my_note_book.Base.{
  ℕ, zero, suc, ◌+◌, String, Bool, true, false, not, ◌&&◌, ◌||◌, Option, none, some, List, [], ◌∷◌,
  ◌++◌, if◌then◌else◌, nat_eq, is_some,
}
use my_note_book.Documents.{
  AppError, AppResult, ok, err, database_unavailable, validation_error, DocumentKind, article,
  DocumentRecord, SaveDocumentInput,
}

pub data AutosaveStatus : Type 0 where
  status_saved status_dirty status_saving status_error : AutosaveStatus

pub record DocumentAutosaveSnapshot : Type 0 where
  pub title : String
  pub content_json : String
  pub plain_text : String
  pub parent_id : Option String
  pub document_kind : Option DocumentKind
  pub tags : Option (List String)
  pub source_url : Option String
  pub author : Option String
  pub description : Option String
  pub sort_order : Option ℕ

pub record Env : Type 0 where
  pub document_id : String
  pub service_ready : Bool
  pub snapshot : Option DocumentAutosaveSnapshot
  pub debounce_ms : ℕ

abbrev pub FlushResult : Type 0
FlushResult = AppResult (Option DocumentRecord)

-- Where the running flush stands: at the `await` of `saveDocument` with the captured version of the
-- edits; with the result of a save that its loop has not looked at yet; or out of its loop, before
-- `finally` has cleared `activeFlush`.
pub data ActiveFlush : Type 0 where
  awaiting : ℕ → ActiveFlush
  returned : FlushResult → ActiveFlush
  finished : FlushResult → ActiveFlush

pub record Autosave : Type 0 where
  pub status : AutosaveStatus
  pub error : Option AppError
  pub dirty : Bool
  pub saving : Bool
  pub revision : Option ℕ
  pub timer : Option ℕ  -- the delay that it was set with
  pub dirty_version : ℕ
  pub active_flush : Option ActiveFlush
  pub allow_window_close : Bool
  pub disposed : Bool
  pub sent : List SaveDocumentInput  -- the calls of `saveDocument`
  pub saved : List DocumentRecord  -- the calls of `onSaved`
  pub closing : ℕ  -- close handlers that await the running flush
  pub resumed : List FlushResult  -- close handlers whose flush is over
  pub closes : ℕ  -- the calls of `appWindow.close`

unfoldable pub use_document_autosave : Option ℕ → Autosave
use_document_autosave initial_revision = record {
  status = status_saved;
  error = none;
  dirty = false;
  saving = false;
  revision = initial_revision;
  timer = none;
  dirty_version = 0;
  active_flush = none;
  allow_window_close = false;
  disposed = false;
  sent = [];
  saved = [];
  closing = 0;
  resumed = [];
  closes = 0;
}

abbrev pub clear_pending_timer : Autosave → Autosave
clear_pending_timer s = record s { timer = none }

abbrev pub schedule_flush : Env → Autosave → Autosave
schedule_flush env s = record s { timer = some env.debounce_ms }

unfoldable pub mark_dirty : Env → Autosave → Autosave
mark_dirty env s = schedule_flush env (record s {
  dirty = true;
  dirty_version = s.dirty_version + 1;
  status = status_dirty;
  error = none;
})

abbrev value_or {ℓ} : {A : Type ℓ} → Option A → A → A
value_or none d = d
value_or (some a) d = a

unfoldable pub save_input : Env → DocumentAutosaveSnapshot → Option ℕ → SaveDocumentInput
save_input env snapshot revision = record {
  id = env.document_id;
  expected_revision = revision;
  parent_id = snapshot.parent_id;
  document_kind = value_or snapshot.document_kind article;
  title = snapshot.title;
  tags = snapshot.tags;
  source_url = snapshot.source_url;
  author = snapshot.author;
  description = snapshot.description;
  content_json = snapshot.content_json;
  plain_text = snapshot.plain_text;
  sort_order = value_or snapshot.sort_order 0;
}

-- `saveCurrentSnapshot` fails before its `await`.
abbrev pub refuse_save : AppError → Autosave → Autosave
refuse_save e s = record s {
  error = some e;
  status = status_error;
  active_flush = some (returned (err e));
}

abbrev pub service_not_ready : AppError
service_not_ready = record {
  code = database_unavailable;
  message = "Document service is not ready.";
}

abbrev pub snapshot_not_available : AppError
snapshot_not_available = record {
  code = validation_error;
  message = "Editor snapshot is not available.";
}

-- `saveCurrentSnapshot` up to its `await`.
unfoldable pub begin_save : Env → Autosave → Autosave
begin_save env s =
    if not env.service_ready then refuse_save service_not_ready s else elim env.snapshot [
      | none ↦ refuse_save snapshot_not_available s
      | some snapshot ↦ record s {
        saving = true;
        status = status_saving;
        active_flush = some (awaiting s.dirty_version);
        sent = s.sent ++ save_input env snapshot s.revision ∷ [];
      }
    ]

-- A round of `runFlushLoop`, from its test of `dirty` on.
unfoldable pub flush_round : Env → FlushResult → Autosave → Autosave
flush_round env latest_result s =
    if s.dirty then begin_save env s else record s { active_flush = some (finished latest_result) }

unfoldable pub flush : Env → Autosave → Autosave
flush env s =
    if is_some s.active_flush
    then clear_pending_timer s
    else flush_round env (ok none) (clear_pending_timer s)

-- The rest of `saveCurrentSnapshot`, when `saveDocument` has answered.
save_answered : Env → ℕ → AppResult DocumentRecord → Autosave → Autosave
save_answered env captured (err e) s = record s {
  saving = false;
  error = some e;
  status = status_error;
  dirty = true;
  active_flush = some (returned (err e));
}
save_answered env captured (ok document) s =
    let t = record s {
      saving = false;
      saved = s.saved ++ document ∷ [];
      revision = some document.revision;
      error = none;
      active_flush = some (returned (ok (some document)));
    } in
    if nat_eq captured s.dirty_version
    then record t { dirty = false; status = status_saved }
    else schedule_flush env (record t { dirty = true; status = status_dirty })

resolve_at : Env → Option ActiveFlush → AppResult DocumentRecord → Autosave → Autosave
resolve_at env (some (awaiting captured)) result s = save_answered env captured result s
resolve_at env _ result s = s

unfoldable pub save_resolved : Env → AppResult DocumentRecord → Autosave → Autosave
unfolding save_answered resolve_at
save_resolved env result s = resolve_at env s.active_flush result s

-- The rest of a round of `runFlushLoop`: an error leaves the loop.
resume_at : Env → Option ActiveFlush → Autosave → Autosave
resume_at env (some (returned (err e))) s = record s { active_flush = some (finished (err e)) }
resume_at env (some (returned (ok d))) s = flush_round env (ok d) s
resume_at env _ s = s

unfoldable pub loop_resumed : Env → Autosave → Autosave
unfolding resume_at flush_round begin_save
loop_resumed env s = resume_at env s.active_flush s

-- The handlers that await a flush are resumed with its result.
abbrev resume_closing : ℕ → FlushResult → List FlushResult → List FlushResult
resume_closing zero r rs = rs
resume_closing (suc n) r rs = r ∷ resume_closing n r rs

-- `finally`
settle_at : Option ActiveFlush → Autosave → Autosave
settle_at (some (finished r)) s = record s {
  active_flush = none;
  closing = 0;
  resumed = resume_closing s.closing r s.resumed;
}
settle_at _ s = s

unfoldable pub flush_settled : Autosave → Autosave
unfolding settle_at
flush_settled s = settle_at s.active_flush s

unfoldable pub reset_saved_state : Option ℕ → Autosave → Autosave
reset_saved_state next_revision s = record s {
  timer = none;
  revision = next_revision;
  dirty = false;
  saving = false;
  status = status_saved;
  error = none;
  dirty_version = s.dirty_version + 1;
}

unfoldable pub handle_before_unload : Env → Autosave → Autosave
handle_before_unload env s = if s.dirty then flush env s else s

-- `onCloseRequested` up to its `await`. The window closes at once if the handler returns here.
unfoldable pub close_requested : Env → Autosave → Autosave
close_requested env s =
    if s.allow_window_close || not s.dirty
    then s
    else let t = flush env s in record t { closing = t.closing + 1 }

abbrev is_ok : FlushResult → Bool
is_ok (ok d) = true
is_ok (err e) = false

-- The rest of an `onCloseRequested` handler.
close_resumed_with : List FlushResult → Autosave → Autosave
close_resumed_with [] s = s
close_resumed_with (r ∷ rs) s =
    let t = record s { resumed = rs } in
    if is_ok r && not s.dirty
    then record t { allow_window_close = true; closes = t.closes + 1 }
    else t

unfoldable pub close_resumed : Autosave → Autosave
unfolding close_resumed_with
close_resumed s = close_resumed_with s.resumed s

unfoldable pub before_unmount : Env → Autosave → Autosave
before_unmount env s =
    let t = record s { disposed = true; timer = none } in if s.dirty then flush env t else t
