-- ===== src/TxGraph/Memory/Interface.antt =====
-- txgraph/store/memory/memory.go: the in-memory store as a transaction graph.
use etherscan.Base.{none, Option, some, List, [], ◌∷◌}
use etherscan.TxGraph.Types.{Error}
use etherscan.TxGraph.Api.{GraphApi, GraphReader}
use etherscan.TxGraph.Memory.{
  InMemoryGraph, upsert_blocks, upsert_wallets, insert_txs, get_unprocessed_blocks, wallet_txs,
  wallets,
}

abbrev pub memory_api : GraphApi InMemoryGraph Error
memory_api = record {
  upsert_blocks = upsert_blocks;
  insert_txs = insert_txs;
  upsert_wallets = upsert_wallets;
}

-- The list without its nil pointers.
abbrev pub present : {X : Type 0} → List (Option X) → List X
present [] = []
present (none ∷ xs) = present xs
present (some x ∷ xs) = x ∷ present xs

-- Only blocks can fail; the iterators have no errors, and those of a consistent graph no nil pointer.
abbrev pub memory_reader : GraphReader InMemoryGraph Error
memory_reader = record {
  blocks = λ g. let ((items, err), g') = get_unprocessed_blocks g in ((err, (items, none)), g');
  wallet_txs = λ address g. (none, (present (wallet_txs address g), none));
  wallets = λ from_address to_address g. (none, (wallets from_address to_address g, none));
}
