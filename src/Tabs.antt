-- ===== src/Tabs.antt =====
-- The tabs of the workspace: src/features/workspace/components/home/useWorkspaceTabs.ts.
mod Handlers
mod Keys
mod Trim
mod Open
mod Closing
mod Tests
