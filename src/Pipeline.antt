-- ===== src/Pipeline.antt =====
-- The pipeline of src/kafka_pipeline.cpp and include/kafka_pipeline.hpp.
pub mod Backoff
pub mod Failure
pub mod Settling
pub mod State
pub mod Calls
pub mod Producer
pub mod Worker
pub mod System
pub mod Lifecycle
pub mod Serving
pub mod Enqueuing
pub mod Delivery
pub mod Keeping
mod Tests
