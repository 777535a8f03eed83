-- ===== src/Scanner/Parser.antt =====
-- scanner/tx_parser.go and payload.go: the stage that stores the transactions of a block.
pub mod Stores
pub mod Records
use etherscan.Base.{ℕ, suc, ◌+◌, Option, none, some, List, [], ◌∷◌, map, Bool, true, ℤ, ◌-ℤ◌}
use etherscan.Base.Text.{Text, text_eq, codes}
use etherscan.Base.Map.{Map, insert, keys}
use etherscan.TxGraph.Types.{Tx, Wallet, TxStatus, success}
use etherscan.TxGraph.Api.{GraphApi}

-- What the parser reads of a go-ethereum transaction: Hash().String() and To().String(), each after
-- `0x`; `to` is nil for the creation of a contract. Cost() is the value with the price of the gas.
pub record Transaction : Type 0 where
  pub hash : Text
  pub to : Option Text
  pub value : ℤ
  pub cost : ℤ
  pub input : List ℕ

pub record ScannerPayload : Type 0 where
  pub block_number : ℤ
  pub txs : List Transaction

-- The slice is copied, the transactions are shared.
unfoldable pub clone : ScannerPayload → ScannerPayload
clone p = record { block_number = p.block_number; txs = p.txs }

-- The payload that goes back to the pool.
unfoldable pub mark_as_processed : ScannerPayload → ScannerPayload
mark_as_processed p = record p { txs = [] }

abbrev pub zero_address : Text
zero_address = codes "0000000000000000000000000000000000000000"

-- s[2:]
abbrev pub without_prefix : Text → Text
without_prefix (a ∷ b ∷ s) = s
without_prefix _ = []

unfoldable pub parse_from : Transaction → Text
parse_from tx = zero_address

unfoldable pub parse_to : Transaction → Text
parse_to tx = elim tx.to [ none ↦ zero_address | some address ↦ without_prefix address ]

unfoldable pub parse_status : Transaction → TxStatus
parse_status tx = success

unfoldable pub parse_cost : Transaction → ℤ
parse_cost tx = tx.cost -ℤ tx.value

-- `now` is the clock's reading for the transaction.
unfoldable pub graph_tx : ℤ → ℕ → Transaction → Tx
unfolding parse_from parse_to parse_status parse_cost
graph_tx block_number now tx = record {
  hash = without_prefix tx.hash;
  status = parse_status tx;
  block = block_number;
  timestamp = now;
  from = parse_from tx;
  to = parse_to tx;
  value = tx.value;
  transaction_fee = parse_cost tx;
  input = tx.input;
}

-- The loop over the payload's transactions, `i` of which are done: the transactions for the graph.
unfoldable pub graph_txs : ℤ → (ℕ → ℕ) → ℕ → List Transaction → List Tx
unfolding graph_tx
graph_txs block_number clock i [] = []
graph_txs block_number clock i (tx ∷ txs) =
    graph_tx block_number (clock i) tx ∷ graph_txs block_number clock (suc i) txs

-- The same loop: walletsMap.
unfoldable pub wallets_map : List Transaction → Map Text Bool → Map Text Bool
unfolding parse_from parse_to
wallets_map [] m = m
wallets_map (tx ∷ txs) m =
    wallets_map txs (insert (parse_to tx) true (insert (parse_from tx) true m))

abbrev pub wallet_of : Text → Wallet
wallet_of address = record { address = address }

-- `order` is the order in which the range over walletsMap meets its keys.
unfoldable pub process :
    {G E : Type 0}
    → GraphApi G E
    → (List Text → List Text)
    → (ℕ → ℕ)
    → ScannerPayload
    → G
    → (Option ScannerPayload × Option E) × G
unfolding graph_txs wallets_map
process api order clock p g = elim p.txs [
  | [] ↦ ((some p, none), g)
  | tx ∷ txs ↦
      let wallets = map wallet_of (order (keys (wallets_map (tx ∷ txs) []))) in
      let (err, g1) = api.upsert_wallets wallets g in
      elim err [
        | some e ↦ ((none, some e), g1)
        | none ↦
            let (err', g2) = api.insert_txs (graph_txs p.block_number clock 0 (tx ∷ txs)) g1 in
            elim err' [ some e ↦ ((none, some e), g2) | none ↦ ((some p, none), g2) ]
      ]
]
