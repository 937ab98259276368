-- ===== src/Feed.antt =====
-- crates/atomic-feed/src.
pub mod Normalizer
mod Tests
