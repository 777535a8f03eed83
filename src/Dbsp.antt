-- ===== src/Dbsp.antt =====
-- dbspgraph/: the graph processor on several machines, in lock-step.
pub mod Aggregators
pub mod Relay
pub mod WorkerPool
pub mod Callbacks
pub mod Coordinator
pub mod Barrier
mod Examples
