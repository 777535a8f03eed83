-- ===== src/TxGraph/Memory.antt =====
-- txgraph/store/memory/memory.go: the in-memory transaction graph. A method is one atomic operation
-- here, as if nobody else used the graph meanwhile. In the code that is so for InsertTxs,
-- UpsertWallets, FindWallet, WalletTxs and Wallets, which hold the lock; UpsertBlocks takes it for each
-- block, and refreshBlocks, which Blocks begins with, reads a part without it. A map of pointers to
-- private copies is a map of values. A slice of pointers that a lookup fills may hold nil: it is a list
-- of options.
pub mod Blocks
pub mod Interface
pub mod Iterators
pub mod Refresh
pub mod Txs
pub mod Listed
pub mod Wallets
use etherscan.Base.{
  ℕ, zero, suc, ◌+◌, ◌-◌, Bool, true, false, not, ◌&&◌, ◌||◌, Option, none, some, List, [], ◌∷◌,
  ◌++◌, length, nat_eqb, if◌then◌else◌, ℤ, pos, pos_part, int_eq, int_ltb,
}
use etherscan.Base.Text.{Text, text_eq, text_ltb, text_geb}
use etherscan.Base.Map.{Map, lookup, insert, alter, has_key}
use etherscan.TxGraph.Types.{Block, Tx, Wallet, Error, not_found, invalid_address, unknown_address}

-- `wallet_txs_map` has the hashes of the transactions from a wallet.
pub record InMemoryGraph : Type 0 where
  pub blocks : Map ℤ Block
  pub txs : Map Text Tx
  pub wallets : Map Text Wallet
  pub wallet_txs_map : Map Text (List Text)

unfoldable pub new_in_memory_graph : InMemoryGraph
new_in_memory_graph = record { blocks = []; txs = []; wallets = []; wallet_txs_map = [] }

-- An existing block only ever becomes processed.
unfoldable pub upsert_block : Block → InMemoryGraph → Option Error × InMemoryGraph
upsert_block block g = elim (lookup block.number g.blocks) [
  | some existing ↦
      if not existing.processed && block.processed
      then (
        none,
        record g {
          blocks = alter block.number (λ b. record b { processed = block.processed }) g.blocks;
        },
      )
      else (none, g)
  | none ↦ (none, record g { blocks = insert block.number block g.blocks })
]

unfoldable pub upsert_blocks : List Block → InMemoryGraph → Option Error × InMemoryGraph
unfolding upsert_block
upsert_blocks [] g = (none, g)
upsert_blocks (block ∷ blocks) g =
    let (err, g') = upsert_block block g in
    elim err [ none ↦ upsert_blocks blocks g' | some e ↦ (some e, g') ]

-- The largest number of a block, and at least the given one.
unfoldable pub max_block_number : Map ℤ Block → ℤ → ℤ
max_block_number [] found = found
max_block_number ((number, block) ∷ m) found =
    max_block_number m (if int_ltb found number then number else found)

-- `rounds` rounds of the loop that inserts missing blocks, from the number `i` on.
unfoldable pub insert_missing : ℕ → ℕ → InMemoryGraph → Option Error × InMemoryGraph
unfolding upsert_block
insert_missing zero i g = (none, g)
insert_missing (suc rounds) i g = elim (has_key (pos i) g.blocks) [
  | true ↦ insert_missing rounds (i + 1) g
  | false ↦
      let (err, g') = upsert_block (record { number = pos i; processed = false }) g in
      elim err [ none ↦ insert_missing rounds (i + 1) g' | some e ↦ (some e, g') ]
]

-- for i := 1; i < maxBlockNumber; i++
unfoldable pub refresh_blocks : InMemoryGraph → Option Error × InMemoryGraph
unfolding max_block_number insert_missing
refresh_blocks g = insert_missing (pos_part (max_block_number g.blocks (pos 0)) - 1) 1 g

unfoldable pub unprocessed : Map ℤ Block → List Block
unprocessed [] = []
unprocessed ((number, block) ∷ m) =
    if not block.processed then block ∷ unprocessed m else unprocessed m

unfoldable pub get_unprocessed_blocks : InMemoryGraph → (List Block × Option Error) × InMemoryGraph
unfolding refresh_blocks unprocessed
get_unprocessed_blocks g =
    let (err, g') = refresh_blocks g in
    elim err [ none ↦ ((unprocessed g'.blocks, none), g') | some e ↦ (([], some e), g') ]

-- One round of the loop of InsertTxs.
unfoldable pub insert_tx : Tx → InMemoryGraph → Option Error × InMemoryGraph
insert_tx tx g =
    if not (has_key tx.from g.wallets) || not (has_key tx.to g.wallets)
    then (some unknown_address, g)
    else if has_key tx.hash g.txs
    then (none, g)
    else (
      none,
      record g {
        txs = insert tx.hash tx g.txs;
        wallet_txs_map =
            insert tx.from
              ((elim (lookup tx.from g.wallet_txs_map) [ none ↦ [] | some hs ↦ hs ])
                ++ tx.hash ∷ [])
              g.wallet_txs_map;
      },
    )

-- The first error ends the loop; the transactions before it stay.
unfoldable pub insert_txs : List Tx → InMemoryGraph → Option Error × InMemoryGraph
unfolding insert_tx
insert_txs [] g = (none, g)
insert_txs (tx ∷ txs) g =
    let (err, g') = insert_tx tx g in elim err [ none ↦ insert_txs txs g' | some e ↦ (some e, g') ]

unfoldable pub upsert_wallet : Wallet → InMemoryGraph → Option Error × InMemoryGraph
upsert_wallet wallet g =
    if not (nat_eqb (length wallet.address) 40)
    then (some invalid_address, g)
    else if has_key wallet.address g.wallets
    then (none, g)
    else (none, record g { wallets = insert wallet.address wallet g.wallets })

unfoldable pub upsert_wallets : List Wallet → InMemoryGraph → Option Error × InMemoryGraph
unfolding upsert_wallet
upsert_wallets [] g = (none, g)
upsert_wallets (wallet ∷ wallets) g =
    let (err, g') = upsert_wallet wallet g in
    elim err [ none ↦ upsert_wallets wallets g' | some e ↦ (some e, g') ]

unfoldable pub find_wallet : Text → InMemoryGraph → Option Wallet × Option Error
find_wallet address g = elim (lookup address g.wallets) [
  | none ↦ (none, some not_found)
  | some wallet ↦ (some wallet, none)
]

abbrev pub hashes_of : Text → InMemoryGraph → List Text
hashes_of address g = elim (lookup address g.wallet_txs_map) [ none ↦ [] | some hs ↦ hs ]

-- The transactions of a list of hashes; `none` is nil.
abbrev pub txs_at : Map Text Tx → List Text → List (Option Tx)
txs_at m [] = []
txs_at m (h ∷ hs) = lookup h m ∷ txs_at m hs

unfoldable pub wallet_txs : Text → InMemoryGraph → List (Option Tx)
wallet_txs address g = txs_at g.txs (hashes_of address g)

unfoldable pub wallets_between : Text → Text → Map Text Wallet → List Wallet
wallets_between from to [] = []
wallets_between from to ((address, wallet) ∷ m) =
    if text_geb address from && text_ltb address to
    then wallet ∷ wallets_between from to m
    else wallets_between from to m

unfoldable pub wallets : Text → Text → InMemoryGraph → List Wallet
unfolding wallets_between
wallets from to g = wallets_between from to g.wallets
