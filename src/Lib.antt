-- ===== src/Lib.antt =====
-- Atomic Mesh: matching, execution, risk, routing, quoting and recovery in the trading mesh.
--
-- Every node of the mesh runs one engine over one sequence of events. Events come from feeds, from
-- the strategies and from the simulated exchange; the sequencer numbers them and the ring hands
-- them on; the order book takes the market data, the risk engine checks each order, the exchange
-- turns orders into acks, fills, cancels and rejects, and the execution engine follows each order
-- through them. Nodes compare the hashes of their states, and start again from snapshots and from a
-- replay of the log.
--
-- The files, and the code that they are about:
--   Core: crates/atomic-core/src. Core/Types is types.rs, Core/Event event.rs, Core/Node node.rs,
--   Core/Clock clock.rs with the steps of other threads in the loop of `witness` (Core/Clock/Order),
--   Core/Snapshot snapshot.rs, Core/Metrics the latency histogram of metrics.rs.
--   OrderBook: crates/atomic-orderbook/src/book.rs. `OrderBook` with the source's operations; its
--   laws are in WellFormed, Best, Update, Fill and FillPrice.
--   Execution: crates/atomic-execution/src/state_machine.rs. Execution/Order is `OrderState` and
--   `LiveOrder`, Execution/Engine `ExecutionEngine`, Execution/Persist its snapshots,
--   Execution/Verifier `StateVerifier`.
--   Simulator: crates/atomic-execution/src/simulator.rs. Simulator/Match is the books and
--   `match_order`, Simulator/Exchange `SimulatedExchange`, whose resting orders are in
--   Exchange/Resting; Exchange/Fills, Outcomes and Pipeline feed its events to the engine.
--   Risk: crates/atomic-risk/src/limits.rs. `RiskEngine`; its laws are in Check, Passed, Breaker
--   and Rate.
--   Bus: crates/atomic-bus/src. Bus/Ring is ring.rs, Bus/Sequencer sequencer.rs.
--   Replay: crates/atomic-replay/src. Replay/Player is player.rs, Replay/Log log.rs: a file is the
--   list of its bytes, and a log has the bytes that are not flushed.
--   Recovery: crates/atomic-node/src/recovery.rs. The deduplicator; Recovery/Plan is
--   `RecoveryCoordinator`, whose saving of a snapshot is a list of operations on files that may be
--   interrupted between any two of them and in the middle of a write. Gaps and Missing are about
--   the gaps in a log.
--   Router: crates/atomic-router/src/router.rs, with a loop per algorithm.
--   Strategy: crates/atomic-strategy/src. Traits, Engine, Inventory, Toxicity, Microprice and
--   MarketMaker are the files of these names.
--   Node: crates/atomic-node/src/main.rs and crates/atomic-transport/src/protocol.rs. Node/Startup is
--   the recovery at the start of `main` and `run_replay`, Node/Mesh `handle_mesh_message`.
--   Feed: Feed/Normalizer is crates/atomic-feed/src/normalizer.rs with the messages of connector.rs.
--   Base: the tests on numbers and texts, lists, the integers and machine words, and the standard
--   maps. A `HashMap` is the list of its entries in the order in which it would be visited, a
--   `BTreeMap` over `i64` the list of its entries by rising key.
--
-- A method that changes its object returns the new one, beside its result. A `u64` is a natural
-- number and a sum of two is taken modulo 2 ^ 64, as in a release build; an `i64` is an integer that
-- is brought back into range in the same way. An index into a ring is below its capacity.
--
-- Loops are recursions on the list that they go through. The search for the next power of two has
-- 64 doublings, which reach each `usize`, and the printing of a number as many steps as it needs,
-- which Base/Decimal shows to be enough. The reading of a log has one step more than the file has
-- bytes, and each step reads at least four of them.
--
-- The hash of xxhash-rust, the encoding of bincode and the text of the crate hex are arguments; of
-- the encoding a theorem may assume that it reads back what it has written. The share of a venue in
-- the routing by volume, the rank of a percentile and the conversion of a feed's prices and
-- quantities, which are computed in `f64`, are arguments too. Not modelled are other conversions to
-- `f64` and what is computed with them (the fill percentage, the results of a back test), the texts
-- of errors and logs, sockets and threads, failures of a disk, the connections to exchanges, the live
-- loop of the node, the web dashboard and the C++ hot path. A call on the ring is one step: producer
-- and consumer do not interleave within it.
pub mod Base
pub mod Core
pub mod OrderBook
pub mod Execution
pub mod Risk
pub mod Simulator
pub mod Bus
pub mod Replay
pub mod Recovery
pub mod Router
pub mod Strategy
pub mod Node
pub mod Feed
