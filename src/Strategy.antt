-- ===== src/Strategy.antt =====
-- The crate atomic-strategy.
pub mod Traits
pub mod Engine
pub mod Inventory
pub mod Toxicity
pub mod Microprice
pub mod MarketMaker
mod Tests
