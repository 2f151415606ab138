-- ===== src/Engine.antt =====
-- The process-local workflow engine and its event storage (packages/engine/src/engine.ts,
-- packages/engine/src/persistence.ts, packages/engine/src/context.ts).
pub mod Persistence
pub mod Context
pub mod Actions
pub mod Outside
pub mod Runtime
pub mod Attempt
pub mod Finish
pub mod Tick
pub mod Keeping
pub mod Running
pub mod Advancing
pub mod Creation
pub mod Starting
pub mod Inputs
pub mod Committed
pub mod Outcomes
pub mod Storage
pub mod Tests
