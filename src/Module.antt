-- ===== src/Module.antt =====
-- The FreeSWITCH module of mod_event_kafka.cpp and mod_event_kafka.hpp.
pub mod Settings
pub mod Publisher
pub mod Ordering
pub mod Relaying
pub mod Subscriptions
pub mod Loading
pub mod Unloading
mod Tests
