-- ===== src/Learning.antt =====
-- Learning sessions: src/services/cognitive/LearningSessionStateService.ts over the types of
-- src/models/cognitive/cognitive.ts.
mod Session
mod Consistent
mod Progress
mod Tests
