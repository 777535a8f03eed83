-- ===== src/Gravitas.antt =====
-- gravitas/: the score of a wallet, as a computation on the graph processor.
pub mod Float
pub mod Compute
pub mod Calculator
mod Examples
pub mod Run
