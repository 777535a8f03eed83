-- ===== src/TxGraph/Examples.antt =====
-- txgraph/store/memory/: runs at concrete inputs.
use etherscan.Base.{ℕ, ◌≡◌, refl, Bool, true, false, none, some, List, [], ◌∷◌, arith, pos, int_eq}
use etherscan.TxGraph.Memory.Iterators.{drain}
use etherscan.TxGraph.Memory.Iterators.Drain.{drain_lem}
use etherscan.Base.Text.{Text, text_eq, text_eqb}
use etherscan.Base.Map.{lookup}
use etherscan.TxGraph.Types.{Block, Tx, Wallet, success}
use etherscan.TxGraph.Memory.{InMemoryGraph, insert_txs, upsert_blocks, wallet_txs}
use etherscan.TxGraph.Memory.Txs.{IsConsistent, insert_txs-IsConsistent, insert_txs_keeps}
use etherscan.TxGraph.Memory.Listed.{FoundFor, AllListed, wallet_txs_finds}
use etherscan.TxGraph.Memory.{hashes_of}
use etherscan.Base.Member.{member}
use etherscan.TxGraph.Memory.Blocks.{is_processed, upsert_blocks_processed}

abbrev address : ℕ → Text
address n = n ∷ []

abbrev payment : ℕ → ℕ → ℕ → Tx
payment hash from to = record {
  hash = address hash;
  status = success;
  block = pos 1;
  timestamp = 0;
  from = address from;
  to = address to;
  value = pos 10;
  transaction_fee = pos 1;
  input = [];
}

abbrev wallet_entry : ℕ → Text × Wallet
wallet_entry n = (address n, record { address = address n })

-- Two wallets, and no transaction.
abbrev two_wallets : InMemoryGraph
two_wallets = record {
  blocks = [];
  txs = [];
  wallets = wallet_entry 1 ∷ wallet_entry 2 ∷ [];
  wallet_txs_map = [];
}

two_wallets-IsConsistent : IsConsistent two_wallets
unfolding lookup
two_wallets-IsConsistent = record { filed = λ h tx e. ground (arith, e); listed = λ a. tt }

-- The third one goes to an unknown wallet.
abbrev payments : List Tx
payments = payment 7 1 2 ∷ payment 8 2 1 ∷ payment 9 1 3 ∷ []

insert_txs-IsConsistent_example : IsConsistent (insert_txs payments two_wallets).1
insert_txs-IsConsistent_example =
    insert_txs-IsConsistent payments two_wallets two_wallets-IsConsistent

-- Two wallets and a transaction between them.
abbrev one_payment : InMemoryGraph
one_payment = record two_wallets {
  txs = (address 7, payment 7 1 2) ∷ [];
  wallet_txs_map = (address 1, address 7 ∷ []) ∷ [];
}

-- Another transaction with the hash of the first one.
insert_txs_keeps_example :
    lookup (address 7) (insert_txs (payment 7 2 2 ∷ []) one_payment).1.txs ≡ some (payment 7 1 2)
unfolding lookup text_eqb
insert_txs_keeps_example =
    insert_txs_keeps (payment 7 2 2 ∷ []) (payment 7 1 2) (address 7) one_payment refl

two_wallets-AllListed : AllListed two_wallets
unfolding lookup
two_wallets-AllListed h tx e = ground (arith, e)

-- The first wallet has sent one of the payments; the third one is not stored.
abbrev paid : InMemoryGraph
paid = (insert_txs payments two_wallets).1

wallet_txs_example :
    FoundFor paid (address 1) (hashes_of (address 1) paid) (wallet_txs (address 1) paid)
    × ((h : Text) (tx : Tx)
        → lookup h paid.txs ≡ some tx
        → tx.from ≡ address 1
        → member h (hashes_of (address 1) paid) ≡ true)
wallet_txs_example =
    wallet_txs_finds (address 1) payments two_wallets two_wallets-IsConsistent two_wallets-AllListed

abbrev block : ℕ → Bool → Block
block n processed = record { number = pos n; processed = processed }

abbrev blocks_1_4 : InMemoryGraph
blocks_1_4 = record two_wallets { blocks = (pos 1, block 1 true) ∷ (pos 4, block 4 false) ∷ [] }

upsert_blocks_example :
    ((upsert_blocks (block 4 true ∷ block 1 false ∷ []) blocks_1_4).0 ≡ none)
    × (is_processed (pos 4) (upsert_blocks (block 4 true ∷ block 1 false ∷ []) blocks_1_4).1 ≡ true)
unfolding lookup
upsert_blocks_example =
    upsert_blocks_processed (block 4 true ∷ block 1 false ∷ []) (pos 4) blocks_1_4

drain_example :
    drain 3 (record { txs = payment 7 1 2 ∷ payment 8 2 1 ∷ []; cur_index = 0 })
    ≡ some (payment 7 1 2 ∷ payment 8 2 1 ∷ [])
drain_example = drain_lem 3 (payment 7 1 2 ∷ payment 8 2 1 ∷ []) (omega arith)
