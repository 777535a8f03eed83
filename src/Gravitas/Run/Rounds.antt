-- ===== src/Gravitas/Run/Rounds.antt =====
-- gravitas/: one round of the executor's loop with the calculator's callbacks.
use etherscan.Base.{
  ℕ, suc, ◌≡◌, ◌<◌, true, false, not, Option, none, some, List, [], arith, nat_eqb, length, negsuc,
  ◌-ℤ◌,
}
use etherscan.Base.Text.{Text}
use etherscan.Bsp.Errors.{Error}
use etherscan.Bsp.Graph.{Graph}
use etherscan.Bsp.Step.{step, run_workers}
use etherscan.Bsp.Executor.{
  Executor, round, run, advance, or_pre_step, or_post_step, or_post_step_keep_running,
}
use etherscan.Aggregator.Int.{IntAccumulator}
use etherscan.Gravitas.Float.{BigFloat}
use etherscan.Gravitas.Compute.{VertexData, TxMessage, ScoreGraph, compute}
use etherscan.Gravitas.Calculator.{callbacks}

module _ (fl : BigFloat) (ctx_err : ℕ → Option Error)
    (schedule : ScoreGraph fl.Carrier → List Text) where
  open fl use {Carrier}

  -- The calculator's executor.
  abbrev pub score_executor : Executor (VertexData Carrier) (TxMessage Carrier) IntAccumulator
  score_executor = record {
    compute_fn = compute fl;
    pre_step = or_pre_step (callbacks {F = Carrier}).pre_step;
    post_step = or_post_step (callbacks {F = Carrier}).post_step;
    post_step_keep_running =
        or_post_step_keep_running (callbacks {F = Carrier}).post_step_keep_running;
    ctx_err = ctx_err;
    schedule = schedule;
  }

  -- The counters at the start of a superstep.
  abbrev pub started : ScoreGraph Carrier → ScoreGraph Carrier
  started g = record g { active_in_step = 0; pending_in_step = length g.vertices }

  pub round-workers :
      (g g' : ScoreGraph Carrier)
      → ctx_err g.superstep ≡ none
      → 0 < length g.vertices
      → run_workers (compute fl) (schedule g) none (started g) ≡ (none, g')
      → round score_executor g ≡ ((none, not (nat_eqb g'.active_in_step 0)), g')
  unfolding round step callbacks or_pre_step or_post_step or_post_step_keep_running
  round-workers g g' live some_vertex ran = ground arith

  -- With no vertices the run stops at once.
  pub round_empty :
      (g : ScoreGraph Carrier)
      → ctx_err g.superstep ≡ none
      → g.vertices ≡ []
      → round score_executor g ≡ ((none, false), started g)
  unfolding round step callbacks or_pre_step or_post_step or_post_step_keep_running
  round_empty g live no_vertex = ground arith

module _ {V M A : Type 0} (ex : Executor V M A) (fuel k : ℕ) (g g' : Graph V M A) where
  pub run_stops :
      (err : Option Error)
      → round ex g ≡ ((err, false), g')
      → run (suc fuel) ex (negsuc k) g ≡ some (err, g')
  unfolding run
  run_stops err h = ground arith

  pub run_goes_on :
      (err : Option Error)
      → round ex g ≡ ((err, true), g')
      → run (suc fuel) ex (negsuc k) g ≡ run fuel ex (negsuc (suc k)) (advance g')
  unfolding run ◌-ℤ◌
  run_goes_on err h = ground arith
