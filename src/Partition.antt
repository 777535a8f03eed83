-- ===== src/Partition.antt =====
-- depl/monolith/partition/: the split of the wallet addresses among workers.
pub mod Hex
pub mod Search
pub mod Range
pub mod Detector
mod Examples
