-- ===== src/Aggregator.antt =====
-- bspgraph/aggregator/accumulator.go.
pub mod Int
pub mod Float64
mod Examples
