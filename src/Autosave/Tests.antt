-- ===== src/Autosave/Tests.antt =====
-- A document that is edited, saved and edited again.
use my_note_book.Base.{true, false, none, some, [], ◌∷◌, ◌++◌, ◌≡◌, refl, arith}
use my_note_book.Documents.{AppError, ok, err, unknown, article, DocumentRecord}
use my_note_book.Autosave.Handlers.{
  status_saved, status_dirty, status_saving, status_error, awaiting, DocumentAutosaveSnapshot, Env,
  Autosave, use_document_autosave, save_input, begin_save, mark_dirty, flush_round, flush,
  save_resolved, loop_resumed, flush_settled, reset_saved_state,
}
use my_note_book.Autosave.Steps.{
  Reach, opened, next, marks, flushes, timer_fires, saves, loops, settles,
}
use my_note_book.Autosave.Saving.{
  flush-saves, save-chains, save-refused, reset-save_in_flight, flush-finished_gap,
}

abbrev page : DocumentAutosaveSnapshot
page = record {
  title = "t";
  content_json = "{}";
  plain_text = "";
  parent_id = none;
  document_kind = none;
  tags = none;
  source_url = none;
  author = none;
  description = none;
  sort_order = none;
}

abbrev env : Env
env = record { document_id = "d"; service_ready = true; snapshot = some page; debounce_ms = 800 }

abbrev stored_page : DocumentRecord
stored_page = record {
  id = "d";
  parent_id = none;
  document_kind = article;
  title = "t";
  tags = [];
  source_url = "";
  author = "";
  description = "";
  content_json = "{}";
  plain_text = "";
  schema_version = 2;
  revision = 5;
  sort_order = 0;
  is_deleted = false;
  created_at = 0;
  updated_at = 1;
}

abbrev edited : Autosave
edited = mark_dirty env (use_document_autosave (some 4))

abbrev in_flight : Autosave
in_flight = flush env edited

abbrev edited_again : Autosave
edited_again = mark_dirty env in_flight

abbrev done : Autosave
done = flush_settled (loop_resumed env (save_resolved env (ok stored_page) in_flight))

done_test : (done.status ≡ status_saved) × (done.revision ≡ some 5)
unfolding flush_settled loop_resumed save_resolved flush flush_round begin_save mark_dirty
    use_document_autosave
done_test = (refl, refl)

-- An edit, and a flush, after the loop of the flush has ended.
swallowed_reached :
    Reach
      (some 4)
      (flush_settled (
        flush env
          (mark_dirty env (loop_resumed env (save_resolved env (ok stored_page) in_flight)))))
      1
      true
unfolding flush_settled loop_resumed save_resolved flush flush_round begin_save mark_dirty
    use_document_autosave
swallowed_reached =
    let ended =
      next
        (next (next (next opened (marks env)) (timer_fires env refl))
          (saves env 1 (ok stored_page) refl))
        (loops env) in
    next (next (next ended (marks env)) (flushes env)) settles

flush-saves_example :
    (in_flight.sent ≡ edited.sent ++ save_input env page edited.revision ∷ [])
    × (done.sent ≡ in_flight.sent)
    × (done.status ≡ status_saved)
    × (done.dirty ≡ false)
    × (done.saving ≡ false)
    × (done.error ≡ none)
    × (done.revision ≡ some 5)
    × (done.active_flush ≡ none)
    × (done.timer ≡ none)
unfolding mark_dirty use_document_autosave
flush-saves_example = flush-saves env page edited refl refl stored_page refl refl

save-chains_example :
    let t = loop_resumed env (save_resolved env (ok stored_page) edited_again) in
    (t.dirty ≡ true)
    × (t.status ≡ status_saving)
    × (t.active_flush ≡ some (awaiting edited_again.dirty_version))
    × (t.sent ≡ edited_again.sent ++ save_input env page (some 5) ∷ [])
    × (t.saved ≡ edited_again.saved ++ stored_page ∷ [])
unfolding flush flush_round begin_save mark_dirty use_document_autosave
save-chains_example = save-chains env page edited_again refl refl stored_page 1 refl (omega arith)

abbrev trouble : AppError
trouble = record { code = unknown; message = "no" }

save-refused_example :
    let t = flush_settled (loop_resumed env (save_resolved env (err trouble) in_flight)) in
    (t.dirty ≡ true)
    × (t.status ≡ status_error)
    × (t.error ≡ some trouble)
    × (t.saving ≡ false)
    × (t.revision ≡ in_flight.revision)
    × (t.sent ≡ in_flight.sent)
    × (t.saved ≡ in_flight.saved)
    × (t.timer ≡ in_flight.timer)
    × (t.active_flush ≡ none)
unfolding flush flush_round begin_save mark_dirty use_document_autosave
save-refused_example = save-refused env in_flight trouble 1 refl

reset-save_in_flight_example :
    let t = save_resolved env (ok stored_page) (reset_saved_state (some 9) in_flight) in
    (t.revision ≡ some 5) × (t.dirty ≡ true) × (t.status ≡ status_dirty) × (t.timer ≡ some 800)
unfolding flush flush_round begin_save mark_dirty use_document_autosave
reset-save_in_flight_example =
    reset-save_in_flight env in_flight (some 9) stored_page 1 refl (omega arith)

abbrev leaving : Autosave
leaving = loop_resumed env (save_resolved env (ok stored_page) in_flight)

flush-finished_gap_example :
    let t = flush_settled (flush env (mark_dirty env leaving)) in
    (t.dirty ≡ true)
    × (t.timer ≡ none)
    × (t.active_flush ≡ none)
    × (t.error ≡ none)
    × (t.sent ≡ leaving.sent)
unfolding loop_resumed save_resolved flush flush_round begin_save mark_dirty use_document_autosave
flush-finished_gap_example = flush-finished_gap env leaving (ok (some stored_page)) refl
