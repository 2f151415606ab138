-- ===== src/Task.antt =====
-- Single-task workflows (packages/core/src/task.ts).
pub mod Markdown
pub mod Compilation
pub mod Tests
