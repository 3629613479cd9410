-- ===== src/Run.antt =====
-- The life of one agent run: src/models/agent/agentRunLifecycle.ts (the reducer) and
-- src/services/agent/AgentRunEngine.ts (the event-sourced engine around it).
pub mod Lifecycle
pub mod Engine
pub mod Invariant
pub mod Plan
pub mod Replay
mod Tests
