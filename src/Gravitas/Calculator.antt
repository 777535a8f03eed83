-- ===== src/Gravitas/Calculator.antt =====
-- gravitas/calculator.go and config.go: the calculator, a graph with the compute function of
-- `Gravitas.Compute`.
use etherscan.Base.{ℕ, not, Option, none, some, List, [], ◌∷◌, nat_eqb, ℤ}
use etherscan.Base.Text.{Text}
use etherscan.Base.Map.{Map, values}
use etherscan.Bsp.Errors.{Error}
use etherscan.Bsp.Graph.{
  add_vertex as graph_add_vertex, add_edge as graph_add_edge, register_aggregator,
}
use etherscan.Bsp.Config.{create, default_workers}
use etherscan.Bsp.Executor.{Executor, ExecutorCallbacks, new_executor, run_to_completion}
use etherscan.TxGraph.Types.{Tx}
use etherscan.Aggregator.Int.{IntAccumulator, new_int_accumulator}
use etherscan.Gravitas.Float.{BigFloat}
use etherscan.Gravitas.Compute.{
  VertexData, TxMessage, ScoreGraph, ScoreVertex, wallet_count, tx_count, compute,
}

pub record Config : Type 0 where
  pub compute_workers : ℤ

unfoldable pub validate : Config → Option Error × Config
validate c = (none, record { compute_workers = default_workers c.compute_workers })

-- The executor factory of the source is `NewExecutor` unless a test sets another.
pub record Calculator (F : Type 0) : Type 0 where
  pub g : ScoreGraph F
  pub cfg : Config

module _ (fl : BigFloat) where
  open fl use {Carrier, zero_float}

  unfoldable pub new_calculator : Config → Option Error × Option (Calculator Carrier)
  unfolding validate create
  new_calculator cfg =
      let (err, cfg') = validate cfg in
      elim err [
        | some e ↦ (some e, none)
        | none ↦
            let (err', created) =
              create (record {
                compute_fn = some (compute fl);
                compute_workers = cfg'.compute_workers;
              }) in
            elim created [
              | none ↦ (err', none)
              | some (_, _, g) ↦ (none, some (record { g = g; cfg = cfg' }))
            ]
      ]

  unfoldable pub add_vertex : Text → List Tx → Calculator Carrier → Calculator Carrier
  unfolding graph_add_vertex
  add_vertex id txs c = record c {
    g = graph_add_vertex id (record { value = zero_float; txs = txs }) c.g;
  }

module _ {F : Type 0} where
  unfoldable pub add_edge : Text → Text → Calculator F → Option Error × Calculator F
  unfolding graph_add_edge
  add_edge src dst c = let (err, g') = graph_add_edge src dst none c.g in (err, record c { g = g' })

  unfoldable pub register_aggregators : ScoreGraph F → ScoreGraph F
  unfolding register_aggregator
  register_aggregators g =
      register_aggregator tx_count new_int_accumulator
        (register_aggregator wallet_count new_int_accumulator g)

  -- Stop when there are no more active vertices.
  unfoldable pub callbacks : ExecutorCallbacks (VertexData F) (TxMessage F) IntAccumulator
  callbacks = record {
    pre_step = some (λ g. (none, g));
    post_step = none;
    post_step_keep_running = some (λ g active. ((not (nat_eqb active 0), none), g));
  }

  -- The loop of Scores: the first error of the visitor ends it. `S` is the visitor's state
  -- and `E` the type of its errors.
  unfoldable pub visit_scores :
      {S E : Type 0} → (Text → F → S → Option E × S) → Map Text (ScoreVertex F) → S → Option E × S
  visit_scores visit [] s = (none, s)
  visit_scores visit ((id, v) ∷ m) s =
      let (err, s') = visit id v.value.value s in
      elim err [ none ↦ visit_scores visit m s' | some e ↦ (some e, s') ]

  unfoldable pub scores :
      {S E : Type 0} → (Text → F → S → Option E × S) → Calculator F → S → Option E × S
  unfolding visit_scores
  scores visit c = visit_scores visit c.g.vertices

  unfoldable pub scores_all :
      {S E : Type 0} → (List (ScoreVertex F) → S → Option E × S) → Calculator F → S → Option E × S
  scores_all visit c = visit (values c.g.vertices)

module _ (fl : BigFloat) where
  open fl use {Carrier}

  unfoldable pub executor :
      (ℕ → Option Error)
      → (ScoreGraph Carrier → List Text)
      → Calculator Carrier
      → Executor (VertexData Carrier) (TxMessage Carrier) IntAccumulator × ScoreGraph Carrier
  unfolding register_aggregators callbacks new_executor
  executor ctx_err schedule c =
      new_executor (compute fl) ctx_err schedule callbacks (register_aggregators c.g)

  -- `ex := calc.Executor(); ex.RunToCompletion(ctx)`
  unfoldable pub calculate :
      ℕ
      → (ℕ → Option Error)
      → (ScoreGraph Carrier → List Text)
      → Calculator Carrier
      → Option (Option Error × ScoreGraph Carrier)
  unfolding executor run_to_completion
  calculate fuel ctx_err schedule c =
      let (ex, g) = executor ctx_err schedule c in run_to_completion fuel ex g
