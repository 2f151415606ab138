-- ===== src/Workflow.antt =====
-- The normalized workflow (packages/core/src/types.ts), its attempt budgets and durations
-- (packages/core/src/workflow.ts) and the scheduler (packages/engine/src/scheduler.ts).
pub mod Definition
pub mod Scheduler
pub mod Document
pub mod Search
pub mod Visits
pub mod Acyclic
pub mod Visiting
pub mod Cycles
pub mod Semantics
pub mod Durations
pub mod DurationTexts
pub mod Normalization
pub mod Validity
pub mod Selection
pub mod Progress
pub mod Tests
pub mod DocumentTests
