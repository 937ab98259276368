-- ===== src/Node.antt =====
-- The parts of crates/atomic-node/src/main.rs that recover, replay and follow other nodes: the start
-- of `main`, `run_replay` and `handle_mesh_message`. What is logged or shown on a dashboard is left
-- out, and so is the time that a stage takes.
pub mod Startup
pub mod Recovered
pub mod Mesh
pub mod Followed
mod Tests
