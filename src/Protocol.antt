-- ===== src/Protocol.antt =====
-- The private protocol of execution supervisors (packages/execution-host/src/protocol.ts).
pub mod Frames
pub mod Splits
pub mod Draining
pub mod RoundTrip
pub mod Limits
pub mod Readers
pub mod Tests
