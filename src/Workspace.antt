-- ===== src/Workspace.antt =====
-- Workspaces, paths and commands on the local machine (packages/workspaces/src/checkpoint.ts,
-- packages/path-policy/src/index.ts, packages/engine/src/command.ts).
pub mod Comparison
pub mod Paths
pub mod Output
pub mod Tests
