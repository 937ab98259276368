-- ===== src/Simulator.antt =====
-- crates/atomic-execution/src/simulator.rs: the simulated exchange.
pub mod Match
pub mod Exchange
mod Tests
