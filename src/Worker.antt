-- ===== src/Worker.antt =====
-- The sidecar process that drives agent runs:
-- packages/agent-runtime-worker/src/AgentWorkerHost.ts over the messages of
-- packages/agent-runtime-contracts/src/index.ts.
--
-- A promise that the host makes for its runtime has a ticket, a number; what the host does to it is
-- an entry of `settled`. The runtime, the planner and the finalizer are the environment: their
-- answers arrive as steps of their own, and the calls that the host makes of the runtime are kept
-- in `runtime_calls`, oldest first, as its messages are in `sent`.
pub mod Messages
pub mod Host
pub mod Replies
pub mod Provider
pub mod Runs
pub mod Steps
pub mod Tickets
pub mod Frame
pub mod Staged
pub mod Claims
pub mod Traces
pub mod Stopping
pub mod Stranded
mod Tests
