-- ===== src/Bus.antt =====
-- The crate atomic-bus.
pub mod Ring
pub mod Sequencer
mod Tests
