-- ===== src/Bsp.antt =====
-- bspgraph/: the bulk synchronous parallel graph processor and its message queues.
pub mod Queue
pub mod Errors
pub mod Graph
pub mod Step
pub mod Config
pub mod Executor
mod Examples
