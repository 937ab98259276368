-- ===== src/Core.antt =====
-- The shared types of crates/atomic-core/src.
pub mod Types
pub mod Event
pub mod Clock
pub mod Snapshot
pub mod Metrics
pub mod Node
mod Tests
