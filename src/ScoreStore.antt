-- ===== src/ScoreStore.antt =====
-- scorestore/: the scores that scorers give to wallets.
pub mod Types
pub mod Api
pub mod Memory
mod Examples
