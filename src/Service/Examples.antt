-- ===== src/Service/Examples.antt =====
-- depl/monolith/service/gravitas/: a pass at concrete inputs.
use etherscan.Base.{
  ◌+◌, nat_eqb, if◌then◌else◌, Option, ℕ, ◌≡◌, refl, ◌∙◌, false, none, some, List, [], ◌∷◌, arith,
  ℤ, pos, negsuc, ◌+ℤ◌, ◌-ℤ◌,
}
use etherscan.Base.Text.{Text, text_eq, text_eqb, text_ltb, codes}
use etherscan.Base.Map.{keys, lookup, has_key, insert}
use etherscan.Base.Member.{member, Distinct, once, once-Distinct, member-once, member-keys}
use etherscan.TxGraph.Types.{Tx, Wallet, success}
use etherscan.TxGraph.Memory.{InMemoryGraph, wallet_txs, insert_txs}
use etherscan.TxGraph.Memory.Txs.{IsConsistent, insert_txs-IsConsistent}
use etherscan.TxGraph.Memory.Interface.{memory_reader}
use etherscan.ScoreStore.Memory.{InMemoryScoreStore}
use etherscan.ScoreStore.Memory.Interface.{memory_api}
use etherscan.ScoreStore.Memory.Scores.{score_at}
use etherscan.Gravitas.Float.{exact}
use etherscan.Gravitas.Compute.{ScoreGraph}
use etherscan.Gravitas.Calculator.{Calculator}
use etherscan.Gravitas.Run.Whole.{IsFair}
use etherscan.Service.Gravitas.Ticks.{run-passes}
use etherscan.Service.Gravitas.{run, current, not_available, balance_eth, update_graph_scores}
use etherscan.Service.Gravitas.Loaded.{AllWithin}
use etherscan.Service.Gravitas.Pass.{min_address, max_address, update_graph_scores_balances}

abbrev address_a : Text
address_a = codes "aaaaaaaaaaaaaaaaaaaaaaaaaaaaaaaaaaaaaaaa"

abbrev address_b : Text
address_b = codes "bbbbbbbbbbbbbbbbbbbbbbbbbbbbbbbbbbbbbbbb"

abbrev payment : Tx
payment = record {
  hash = codes "01";
  status = success;
  block = pos 1;
  timestamp = 0;
  from = address_a;
  to = address_b;
  value = pos 10;
  transaction_fee = pos 1;
  input = [];
}

abbrev graph : InMemoryGraph
graph = record {
  blocks = [];
  txs = (codes "01", payment) ∷ [];
  wallets =
      (address_a, record { address = address_a })
      ∷ (address_b, record { address = address_b })
      ∷ [];
  wallet_txs_map = (address_a, codes "01" ∷ []) ∷ [];
}

-- The wallets alone.
abbrev wallets_only : InMemoryGraph
wallets_only = record graph { txs = []; wallet_txs_map = [] }

wallets_only-IsConsistent : IsConsistent wallets_only
unfolding lookup
wallets_only-IsConsistent = record { filed = λ h tx at_h. ground (arith, at_h); listed = λ a. tt }

graph-IsConsistent : IsConsistent graph
unfolding insert_txs lookup insert has_key text_eqb
graph-IsConsistent = insert_txs-IsConsistent (payment ∷ []) wallets_only wallets_only-IsConsistent

abbrev calculator : Calculator ℤ
calculator = record {
  g = record {
    superstep = 0;
    aggregators = [];
    vertices = [];
    relayer = none;
    active_in_step = 0;
    pending_in_step = 0;
  };
  cfg = record { compute_workers = pos 1 };
}

abbrev store : InMemoryScoreStore ℤ
store = record {
  scorers = (balance_eth, record { name = balance_eth }) ∷ [];
  wallet_scores = [];
  scorer_wallets = [];
}

abbrev in_map_order : ScoreGraph ℤ → List Text
in_map_order g = once (keys g.vertices)

in_map_order-IsFair : IsFair in_map_order
in_map_order-IsFair g = (
  once-Distinct (keys g.vertices),
  λ k. member-once k (keys g.vertices) ∙ member-keys k g.vertices,
)

abbrev as_sent : List Wallet → List Wallet
as_sent ws = ws

graph-AllWithin : AllWithin min_address max_address graph.wallets
unfolding text_ltb
graph-AllWithin = ((refl, refl), ((refl, refl), tt))

graph-Distinct : Distinct (keys graph.wallets)
unfolding keys member text_eqb
graph-Distinct = (refl, (refl, tt))

-- The sender ends with -11.
update_graph_scores_example :
    (c' : Calculator ℤ) × (s' : InMemoryScoreStore ℤ) × (x : ℤ) × (update_graph_scores exact
        memory_reader memory_api as_sent false 4
        (λ i. none)
        in_map_order
        graph
        calculator
        store
      ≡ some (none, c', s'))
    × (c'.g.vertices ≡ [])
    × (score_at address_a balance_eth s'
        ≡ some (record { wallet = address_a; scorer = balance_eth; value = x }))
    × (x ≡ negsuc 10)
unfolding wallet_txs keys lookup text_eqb has_key ◌+ℤ◌ ◌-ℤ◌
update_graph_scores_example =
    update_graph_scores_balances exact as_sent 4 (λ i. none) in_map_order graph calculator store
      address_a (omega arith) (λ i. refl) in_map_order-IsFair (λ ws k. refl) graph-IsConsistent
      graph-AllWithin graph-Distinct refl refl refl (omega arith)

-- A pass that counts, and fails the third time.
abbrev counting : ℕ → Option ℕ × ℕ
counting n = if nat_eqb n 2 then (some 7, n + 1) else (none, n + 1)

-- Two passes before the partition moves away.
run-passes_example :
    (run counting
      (current (pos 0) ∷ not_available ∷ current (pos 0) ∷ current (pos 1) ∷ current (pos 0) ∷ [])
      0).1
    ≡ 2
run-passes_example =
    run-passes counting
      (current (pos 0) ∷ not_available ∷ current (pos 0) ∷ current (pos 1) ∷ current (pos 0) ∷ []) 0
