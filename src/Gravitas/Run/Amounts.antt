-- ===== src/Gravitas/Run/Amounts.antt =====
-- gravitas/: what the transactions of a vertex cost it, and what they bring to another, in wei.
use etherscan.Base.{
  ℕ, ◌+◌, ◌≤◌, List, [], ◌∷◌, arith, Bool-cases, inl, inr, ◌==◌, if◌then◌else◌, ℤ, pos, nat_abs,
  ◌+ℤ◌, +ℤ_nat_abs,
}
use etherscan.Base.Text.{Text, text_eq}
use etherscan.Base.Sums.{sum_of}
use etherscan.TxGraph.Types.{Tx}

-- The values and the fees of the transactions.

abbrev pub cost : List Tx → ℤ
cost [] = pos 0
cost (tx ∷ txs) = (tx.value +ℤ tx.transaction_fee) +ℤ cost txs

-- The values of the transactions that go to `k`.
abbrev pub sent_to : Text → List Tx → ℤ
sent_to k [] = pos 0
sent_to k (tx ∷ txs) = if tx.to == k then tx.value +ℤ sent_to k txs else sent_to k txs

-- What `k` receives from all of `is`.
abbrev pub earned : (Text → List Tx) → Text → List Text → ℤ
earned outbox k is = sum_of ◌+ℤ◌ (pos 0) (λ i. sent_to k (outbox i)) is

-- The same with the absolute values, which bound the intermediate results.
abbrev pub cost_weight : List Tx → ℕ
cost_weight [] = 0
cost_weight (tx ∷ txs) = nat_abs tx.value + nat_abs tx.transaction_fee + cost_weight txs

abbrev pub sent_weight : Text → List Tx → ℕ
sent_weight k [] = 0
sent_weight k (tx ∷ txs) =
    if tx.to == k then nat_abs tx.value + sent_weight k txs else sent_weight k txs

abbrev pub earned_weight : (Text → List Tx) → Text → List Text → ℕ
earned_weight outbox k is = sum_of ◌+◌ 0 (λ i. sent_weight k (outbox i)) is

pub cost_bound : (txs : List Tx) → nat_abs (cost txs) ≤ cost_weight txs
cost_bound [] = omega arith
cost_bound (tx ∷ txs) = omega (
  arith,
  cost_bound txs,
  +ℤ_nat_abs tx.value tx.transaction_fee,
  +ℤ_nat_abs (tx.value +ℤ tx.transaction_fee) (cost txs),
)

pub sent_to_bound : (k : Text) (txs : List Tx) → nat_abs (sent_to k txs) ≤ sent_weight k txs
sent_to_bound k [] = omega arith
sent_to_bound k (tx ∷ txs) = elim (Bool-cases (tx.to == k)) [
  | inl here ↦ rw here (omega (arith, sent_to_bound k txs, +ℤ_nat_abs tx.value (sent_to k txs)))
  | inr other ↦ rw other (sent_to_bound k txs)
]

pub earned_bound :
    (outbox : Text → List Tx) (k : Text) (is : List Text)
    → nat_abs (earned outbox k is) ≤ earned_weight outbox k is
earned_bound outbox k [] = omega arith
earned_bound outbox k (i ∷ is) = omega (
  arith,
  earned_bound outbox k is,
  sent_to_bound k (outbox i),
  +ℤ_nat_abs (sent_to k (outbox i)) (earned outbox k is),
)
