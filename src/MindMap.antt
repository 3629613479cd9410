-- ===== src/MindMap.antt =====
-- Mind maps: src/models/workspace/mindMap.ts.
mod Content
mod Subtree
mod Bounded
mod Children
mod Sorted
mod Complete
mod Validate
mod Accepted
mod Below
mod Rooted
mod Acceptance
mod Parents
mod Tests
