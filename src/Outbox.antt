-- ===== src/Outbox.antt =====
-- The durable outbox of src/kafka_outbox.cpp and include/kafka_outbox.hpp.
pub mod Schema
pub mod Engine
pub mod Admission
pub mod Transitions
pub mod Invariant
pub mod Queries
pub mod History
pub mod Fifo
pub mod Reach
pub mod EventId
pub mod Database
pub mod Opening
pub mod Laws
mod Tests
