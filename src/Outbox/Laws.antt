-- ===== src/Outbox/Laws.antt =====
-- Laws of single calls of the outbox, on every path.
pub mod Atomicity
pub mod Progress
pub mod Capacity
pub mod Recovery
pub mod Exclusion
