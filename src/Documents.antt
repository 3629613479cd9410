-- ===== src/Documents.antt =====
-- Documents and results: src/models/documents/document.ts, src/models/shared/result.ts and
-- src/models/documents/documentTree.ts (the sidebar tree, in the children).
mod Defs
pub mod Tree
mod Forest
mod Walk
mod Ancestors
mod Chain
mod Filed
mod Children
mod Descendants
mod Tests
pub use Defs.*
