-- ===== src/Blocks.antt =====
-- The top-level blocks of a document: src/editor/blocks/blockRanges.ts and blockIndent.ts.
mod Ranges
mod Placed
mod Movable
mod Swap
mod Controllable
mod Neighbours
mod Tests
