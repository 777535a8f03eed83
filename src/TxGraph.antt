-- ===== src/TxGraph.antt =====
-- txgraph/: the transaction graph of wallets, transactions and blocks.
pub mod Types
pub mod Api
pub mod Memory
mod Examples
