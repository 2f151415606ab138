-- ===== src/Run.antt =====
-- The event-sourced run reducer (packages/engine/src/events.ts): the materialized state, the event
-- vocabulary, one module for each family of transitions, the reducer itself and its properties.
pub mod State
pub mod Event
pub mod Guards
pub mod Observations
pub mod Attempts
pub mod Nodes
pub mod Lifecycle
pub mod Reducer
pub mod Inversion
pub mod Wellformed
pub mod Validity
pub mod Preservation
pub mod Invariant
pub mod Frame
pub mod Continuity
pub mod Graph
pub mod RunGraph
pub mod History
pub mod Extension
pub mod Tests
