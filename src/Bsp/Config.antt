-- ===== src/Bsp/Config.antt =====
-- bspgraph/config.go, and NewGraph of bspgraph/graph.go.
use etherscan.Base.{zero, suc, Option, none, some, [], ℤ, pos, negsuc}
use etherscan.Bsp.Errors.{Error, wrapped, compute_fn_missing, panicked}
use etherscan.Bsp.Graph.{Graph, new_graph}
use etherscan.Bsp.Step.{ComputeFunc}

-- The queue factory is the in-memory one, the default.
pub record GraphConfig (V M A : Type 0) : Type 0 where
  pub compute_fn : Option (ComputeFunc V M A)
  pub compute_workers : ℤ

-- Where the count of workers is not positive it is 1.
unfoldable pub default_workers : ℤ → ℤ
default_workers (pos zero) = pos 1
default_workers (pos (suc n)) = pos (suc n)
default_workers (negsuc n) = pos 1

module _ {V M A : Type 0} where
  unfoldable pub validate : GraphConfig V M A → Option Error × GraphConfig V M A
  validate cfg =
      let cfg' = record cfg { compute_workers = default_workers cfg.compute_workers } in
      elim cfg.compute_fn [ none ↦ (some compute_fn_missing, cfg') | some _ ↦ (none, cfg') ]

  -- The graph, with the compute function and the count of workers that it starts.
  unfoldable pub create :
      GraphConfig V M A → Option Error × Option (ComputeFunc V M A × ℤ × Graph V M A)
  unfolding validate default_workers new_graph
  create cfg =
      let (err, cfg') = validate cfg in
      elim err [
        | some e ↦ (some (wrapped [] e), none)
        | none ↦ elim cfg'.compute_fn [
          | none ↦ (some panicked, none)
          | some f ↦ (none, some (f, cfg'.compute_workers, new_graph))
        ]
      ]
