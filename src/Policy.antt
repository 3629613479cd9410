-- ===== src/Policy.antt =====
-- Execution policies of agents: src/models/agent/executionPolicy.ts.
mod Normalize
mod Bounds
mod Stable
mod Tests
