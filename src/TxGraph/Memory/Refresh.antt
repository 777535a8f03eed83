-- ===== src/TxGraph/Memory/Refresh.antt =====
-- txgraph/store/memory/memory.go: refreshBlocks closes the gaps between the blocks.
use etherscan.Base.{ℕ, ◌+◌, ◌≤◌, ◌<◌, ◌≡◌, true, false, Option, none, if◌then◌else◌, ℤ, pos, int_eq}
use etherscan.Base.Map.{Map, has_key}
use etherscan.TxGraph.Types.{Block, Error}
use etherscan.TxGraph.Memory.{InMemoryGraph, upsert_block}
use etherscan.TxGraph.Memory.Blocks.{is_processed}

-- An unprocessed block with the number.

abbrev missing_block : ℕ → Block
missing_block i = record { number = pos i; processed = false }

-- One round of the loop.
abbrev filled : ℕ → InMemoryGraph → InMemoryGraph
filled i g = if has_key (pos i) g.blocks then g else (upsert_block (missing_block i) g).1

-- What the loop leaves: the blocks from `i` on are there, and nothing is lost or processed.
record IsFilled (rounds i : ℕ) (g : InMemoryGraph) (result : Option Error × InMemoryGraph)
    : Type 0 where
  fine : result.0 ≡ none
  same : (number : ℤ) → is_processed number result.1 ≡ is_processed number g
  kept : (number : ℤ) → has_key number g.blocks ≡ true → has_key number result.1.blocks ≡ true
  there : (j : ℕ) → i ≤ j → j < i + rounds → has_key (pos j) result.1.blocks ≡ true
