-- ===== src/Gravitas/Examples.antt =====
-- gravitas/calculator_test.go: TestSimple2 runs in the model as it does in the program.
use etherscan.Gravitas.Run.Balance.{IsSmall, calculate_balances}
use etherscan.Base.{
  some, ◌≡◌, ◌+ℤ◌, ◌-ℤ◌, negsuc, ◌∙◌, ℕ, refl, true, none, List, [], ◌∷◌, ℤ, pos, arith,
}
use etherscan.Base.Text.{Text, text_eq, text_eqb}
use etherscan.Base.Map.{Map, lookup, keys, has_key}
use etherscan.Base.Member.{member, Distinct, once, once-Distinct, member-once, member-keys}
use etherscan.TxGraph.Types.{Tx, success}
use etherscan.Gravitas.Float.{exact}
use etherscan.Gravitas.Compute.{ScoreGraph, ScoreVertex}
use etherscan.Gravitas.Calculator.{Calculator, calculate}
use etherscan.Gravitas.Run.Counting.{IsFresh}
use etherscan.Gravitas.Run.Whole.{IsFair}
use etherscan.Gravitas.Run.Scores.{IsClosed, IsRun, calculate_finishes}

abbrev address : ℕ → Text
address n = n ∷ []

abbrev transfer : ℕ → ℕ → ℕ → ℕ → Tx
transfer from to value fee = record {
  hash = from ∷ to ∷ value ∷ [];
  status = success;
  block = pos 1;
  timestamp = 0;
  from = address from;
  to = address to;
  value = pos value;
  transaction_fee = pos fee;
  input = [];
}

-- A vertex as AddVertex leaves it.
abbrev vertex : ℕ → List Tx → ScoreVertex ℤ
vertex n txs = record {
  id = address n;
  value = record { value = pos 0; txs = txs };
  active = true;
  queue0 = record { msgs = []; latched_msg = none };
  queue1 = record { msgs = []; latched_msg = none };
  edges = [];
}

abbrev three_wallets : Map Text (ScoreVertex ℤ)
three_wallets =
    (address 1, vertex 1 (transfer 1 2 1 0 ∷ transfer 1 2 100 12 ∷ transfer 1 3 2 2 ∷ []))
    ∷ (address 2, vertex 2 (transfer 2 2 4 11 ∷ []))
    ∷ (address 3, vertex 3 (transfer 3 1 5 13 ∷ transfer 3 2 6 17 ∷ []))
    ∷ []

abbrev simple2 : Calculator ℤ
simple2 = record {
  g = record {
    superstep = 0;
    aggregators = [];
    vertices = three_wallets;
    relayer = none;
    active_in_step = 0;
    pending_in_step = 0;
  };
  cfg = record { compute_workers = pos 1 };
}

abbrev in_map_order : ScoreGraph ℤ → List Text
in_map_order g = once (keys g.vertices)

in_map_order-IsFair : IsFair in_map_order
in_map_order-IsFair g = (
  once-Distinct (keys g.vertices),
  λ k. member-once k (keys g.vertices) ∙ member-keys k g.vertices,
)

three_wallets-IsFresh : IsFresh exact three_wallets
unfolding lookup
three_wallets-IsFresh k v e = ground (arith, e)

three_wallets-IsClosed : IsClosed exact three_wallets
unfolding lookup has_key text_eqb
three_wallets-IsClosed k v e = ground (arith, e)

calculate_finishes_example :
    (is : List Text) × (g' : ScoreGraph ℤ) × IsRun exact
      (calculate exact 4 (λ s. none) in_map_order simple2)
      three_wallets
      is
      g'
calculate_finishes_example =
    calculate_finishes exact 4 (λ s. none) in_map_order simple2 (omega arith) (λ s. refl)
      in_map_order-IsFair three_wallets-IsFresh three_wallets-IsClosed

three_wallets-Distinct : Distinct (keys three_wallets)
unfolding keys member text_eqb
three_wallets-Distinct = (refl, (refl, (refl, tt)))

abbrev first : ScoreVertex ℤ
first = vertex 1 (transfer 1 2 1 0 ∷ transfer 1 2 100 12 ∷ transfer 1 3 2 2 ∷ [])

three_wallets-IsSmall : IsSmall exact three_wallets (address 1) first
unfolding keys lookup text_eqb
three_wallets-IsSmall = omega arith

-- The score of the first wallet is -112, as in TestSimple2.
calculate_balances_example :
    (g' : ScoreGraph ℤ) × (w : ScoreVertex ℤ) × (calculate exact 4 (λ s. none) in_map_order simple2
      ≡ some (none, g'))
    × (lookup (address 1) g'.vertices ≡ some w)
    × (w.value.value ≡ negsuc 111)
unfolding keys lookup text_eqb ◌+ℤ◌ ◌-ℤ◌
calculate_balances_example =
    calculate_balances exact 4 (λ s. none) in_map_order simple2 (address 1) first (omega arith)
      (λ s. refl) in_map_order-IsFair three_wallets-Distinct three_wallets-IsFresh
      three_wallets-IsClosed refl refl three_wallets-IsSmall
