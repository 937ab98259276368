-- ===== src/Execution.antt =====
-- crates/atomic-execution/src: the order state machine and the engine that keeps the live orders.
pub mod Order
pub mod Engine
pub mod Persist
pub mod Verifier
mod Tests
