-- ===== src/Replay.antt =====
-- The crate atomic-replay.
pub mod Player
pub mod Log
mod Tests
