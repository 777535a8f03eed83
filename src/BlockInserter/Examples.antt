-- ===== src/BlockInserter/Examples.antt =====
-- blockinserter/: a run at a concrete input.
use etherscan.Base.{◌≡◌, true, ◌||◌, none, List, [], ◌∷◌, pos, int_eq}
use etherscan.Base.Map.{has_key}
use etherscan.TxGraph.Types.{Error, not_found}
use etherscan.TxGraph.Memory.{InMemoryGraph}
use etherscan.TxGraph.Memory.Interface.{memory_api}
use etherscan.TxGraph.Memory.Blocks.{is_processed}
use etherscan.BlockInserter.{Event, header, subscription_failed, start}
use etherscan.BlockInserter.Inserted.{start_lem}

abbrev block_7 : InMemoryGraph
block_7 = record {
  blocks = (pos 7, record { number = pos 7; processed = true }) ∷ [];
  txs = [];
  wallets = [];
  wallet_txs_map = [];
}

-- The header after the failure is not received.
abbrev events : List (Event Error)
events = header (pos 8) ∷ header (pos 7) ∷ subscription_failed not_found ∷ header (pos 9) ∷ []

start_example :
    (has_key (pos 8) (start memory_api none events block_7).1.blocks
      ≡ (true || has_key (pos 8) block_7.blocks))
    × (is_processed (pos 8) (start memory_api none events block_7).1 ≡ is_processed (pos 8) block_7)
start_example = start_lem events (pos 8) block_7
