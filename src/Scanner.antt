-- ===== src/Scanner.antt =====
-- scanner/: the stages that a block goes through, from its number to its transactions in the graph.
pub mod Parser
pub mod Blocks
mod Examples
