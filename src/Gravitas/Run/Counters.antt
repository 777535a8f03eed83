-- ===== src/Gravitas/Run/Counters.antt =====
-- gravitas/compute.go: the aggregators that superstep 0 counts the wallets and transactions with.
use etherscan.Base.{ℕ, ◌+◌, ◌%◌, ◌≡◌, ap, ◌∙◌, true, none, some, arith, ◌==◌, if◌then◌else◌, length}
use etherscan.Base.Text.{text_eqb, Text, text_eq}
use etherscan.Base.Map.{Map, lookup, insert, has_key, lookup-insert, has_key-lookup}
use etherscan.Aggregator.Int.{IntAccumulator, aggregate, word}
use etherscan.Gravitas.Compute.{VertexData, wallet_count, tx_count}

-- Both aggregators are registered.

abbrev pub HasCounters : Map Text IntAccumulator → Type 0
HasCounters ags = (has_key wallet_count ags ≡ true) × (has_key tx_count ags ≡ true)

-- The value of an aggregator.
abbrev pub tally : Text → Map Text IntAccumulator → ℕ
tally name ags = elim (lookup name ags) [ none ↦ 0 | some a ↦ a.cur_sum ]

abbrev pub bumped : Text → ℕ → Map Text IntAccumulator → Map Text IntAccumulator
bumped name n ags = elim (lookup name ags) [ none ↦ ags | some a ↦ insert name (aggregate n a) ags ]

pub has_key-bumped :
    (name other : Text) (n : ℕ) (ags : Map Text IntAccumulator)
    → has_key other ags ≡ true
    → has_key other (bumped name n ags) ≡ true
unfolding has_key
has_key-bumped name other n ags h =
    elim (lookup name ags)
      as (λ o.
        has_key other (elim o [ none ↦ ags | some a ↦ insert name (aggregate n a) ags ]) ≡ true) [
          | none ↦ h
          | some a ↦ ground (arith, lookup-insert name other (aggregate n a) ags)
        ]

pub tally-bumped :
    (name other : Text) (n : ℕ) (ags : Map Text IntAccumulator)
    → has_key name ags ≡ true
    → tally other (bumped name n ags)
      ≡ (if name == other then (tally name ags + n) % word else tally other ags)
unfolding has_key aggregate
tally-bumped name other n ags h =
    let (a, found) = has_key-lookup name ags h in
    ground (arith, lookup-insert name other (aggregate n a) ags)

module _ {F : Type 0} where
  -- The aggregators after a vertex with the data `d` is counted.
  abbrev pub counted : VertexData F → Map Text IntAccumulator → Map Text IntAccumulator
  counted d ags = bumped tx_count (length d.txs % word) (bumped wallet_count 1 ags)

  pub HasCounters-counted :
      (d : VertexData F) (ags : Map Text IntAccumulator)
      → HasCounters ags
      → HasCounters (counted d ags)
  HasCounters-counted d ags h =
      let ags1 = bumped wallet_count 1 ags in
      let n = length d.txs % word in
      (
        has_key-bumped tx_count wallet_count n ags1
            (has_key-bumped wallet_count wallet_count 1 ags h.0),
        has_key-bumped tx_count tx_count n ags1 (has_key-bumped wallet_count tx_count 1 ags h.1),
      )

  pub tally_wallets-counted :
      (d : VertexData F) (ags : Map Text IntAccumulator)
      → HasCounters ags
      → tally wallet_count (counted d ags) ≡ (tally wallet_count ags + 1) % word
  unfolding text_eqb
  tally_wallets-counted d ags h =
      tally-bumped tx_count wallet_count (length d.txs % word) (bumped wallet_count 1 ags)
        (has_key-bumped wallet_count tx_count 1 ags h.1)
      ∙ tally-bumped wallet_count wallet_count 1 ags h.0

  pub tally_txs-counted :
      (d : VertexData F) (ags : Map Text IntAccumulator)
      → HasCounters ags
      → tally tx_count (counted d ags) ≡ (tally tx_count ags + length d.txs % word) % word
  unfolding text_eqb
  tally_txs-counted d ags h =
      tally-bumped tx_count tx_count (length d.txs % word) (bumped wallet_count 1 ags)
        (has_key-bumped wallet_count tx_count 1 ags h.1)
      ∙ ap (λ (n : ℕ). (n + length d.txs % word) % word)
          (tally-bumped wallet_count tx_count 1 ags h.0)
