-- ===== src/Table.antt =====
-- The table block: src/editor/blocks/tableOperations.ts over normalizeTableRows of
-- src/editor/blocks/structuredBlocks.ts.
mod Rows
mod Edits
mod Labels
mod Shape
mod Kept
mod Undo
mod Tests
