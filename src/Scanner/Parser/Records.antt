-- ===== src/Scanner/Parser/Records.antt =====
-- scanner/tx_parser.go: what the parser stores of a transaction, described without its loop.
use mathlib.Core.Path.{subst}
use etherscan.Base.{
  ℕ, suc, ◌≡◌, refl, ap, Bool, false, ◌||◌, none, some, List, [], ◌∷◌, ◌==◌, inl, inr, ℤ, ◌⊎◌, ◌-ℤ◌,
}
use etherscan.Base.Text.{Text, text_eq}
use etherscan.TxGraph.Types.{Tx, success}
use etherscan.TxGraph.Memory.Wallets.{any_hash, Among}
use etherscan.Scanner.Parser.{
  Transaction, zero_address, parse_from, parse_to, graph_tx, graph_txs, without_prefix,
  parse_status, parse_cost,
}

-- One of the transactions of the payload has the hash, after its `0x`.

abbrev pub in_payload : Text → List Transaction → Bool
in_payload h [] = false
in_payload h (tx ∷ txs) = without_prefix tx.hash == h || in_payload h txs

-- What is stored for a transaction of the block with that number. The sender is not read yet; the
-- creation of a contract goes to the zero address, and the fee is the cost without the value.
pub record IsRecordOf (number : ℤ) (tx : Transaction) (t : Tx) : Type 0 where
  pub hash : t.hash ≡ without_prefix tx.hash
  pub status : t.status ≡ success
  pub block : t.block ≡ number
  pub from : t.from ≡ zero_address
  pub to : t.to ≡ (elim tx.to [ none ↦ zero_address | some a ↦ without_prefix a ])
  pub value : t.value ≡ tx.value
  pub fee : t.transaction_fee ≡ tx.cost -ℤ tx.value
  pub input : t.input ≡ tx.input

abbrev pub AmongPayload : ℤ → Tx → List Transaction → Type 0
AmongPayload number t [] = ⊥
AmongPayload number t (tx ∷ txs) = IsRecordOf number tx t ⊎ AmongPayload number t txs

graph_tx-IsRecordOf :
    (number : ℤ) (now : ℕ) (tx : Transaction) → IsRecordOf number tx (graph_tx number now tx)
unfolding graph_tx parse_from parse_to parse_status parse_cost
graph_tx-IsRecordOf number now tx = record {
  hash = refl;
  status = refl;
  block = refl;
  from = refl;
  to = refl;
  value = refl;
  fee = refl;
  input = refl;
}

pub graph_txs-AmongPayload :
    (number : ℤ) (clock : ℕ → ℕ) (i : ℕ) (txs : List Transaction) (t : Tx)
    → Among t (graph_txs number clock i txs)
    → AmongPayload number t txs
unfolding graph_txs
graph_txs-AmongPayload number clock i [] t h = absurd h
graph_txs-AmongPayload number clock i (tx ∷ txs) t h = elim h [
  | inl here ↦ inl (subst (IsRecordOf number tx) here (graph_tx-IsRecordOf number (clock i) tx))
  | inr later ↦ inr (graph_txs-AmongPayload number clock (suc i) txs t later)
]

pub any_hash-graph_txs :
    (number : ℤ) (clock : ℕ → ℕ) (i : ℕ) (txs : List Transaction) (h : Text)
    → any_hash h (graph_txs number clock i txs) ≡ in_payload h txs
unfolding graph_txs graph_tx
any_hash-graph_txs number clock i [] h = refl
any_hash-graph_txs number clock i (tx ∷ txs) h =
    ap (λ b. without_prefix tx.hash == h || b) (any_hash-graph_txs number clock (suc i) txs h)
