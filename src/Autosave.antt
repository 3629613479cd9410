-- ===== src/Autosave.antt =====
-- The debounced saving of the open document: src/composables/useDocumentAutosave.ts.
--
-- A promise that is awaited splits a function in two: what runs before it, and a handler that runs
-- when it resolves. `ActiveFlush` says where the one running flush stands. The texts of the
-- service's answers, the editor's snapshot, the debounce delay and the document's id are read from
-- an `Env` that each handler gets; `content_json` is the snapshot's content already serialised.
-- The service answers with a result and does not reject its promise.
pub mod Handlers
pub mod Steps
pub mod Invariant
pub mod Saving
mod Tests
