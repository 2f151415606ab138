-- ===== src/Store.antt =====
-- The durable run store (packages/engine/src/durable-store.ts): leases with fencing generations,
-- idempotent commits, operator controls and snapshots, as the in-memory reference implements them.
pub mod Types
pub mod Checks
pub mod Snapshots
pub mod Leases
pub mod Commits
pub mod Operations
pub mod Steps
pub mod Writes
pub mod Succession
pub mod Fencing
pub mod Terms
pub mod Tenure
pub mod Idempotence
pub mod Histories
pub mod Tests
pub mod Runs
pub mod Creation
pub mod CreationTests
pub mod Loading
pub mod Restoration
pub mod Controls
pub mod Listing
