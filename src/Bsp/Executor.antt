-- ===== src/Bsp/Executor.antt =====
-- bspgraph/executor.go: supersteps, one after the other, until an error or a stop condition.
pub mod Bounds
use etherscan.Base.{
  ℕ, zero, suc, ◌+◌, Bool, true, false, Option, none, some, List, ℤ, pos, negsuc, ◌-ℤ◌, ◌==◌,
  int_eq,
}
use etherscan.Base.Text.{Text}
use etherscan.Bsp.Errors.{Error}
use etherscan.Bsp.Graph.{Graph}
use etherscan.Bsp.Step.{ComputeFunc, step}

module _ (V M A : Type 0) where
  -- A callback may change the graph; `none` is a field that was not set.
  pub record ExecutorCallbacks : Type 0 where
    pub pre_step : Option (Graph V M A → Option Error × Graph V M A)
    pub post_step : Option (Graph V M A → ℕ → Option Error × Graph V M A)
    pub post_step_keep_running : Option (Graph V M A → ℕ → (Bool × Option Error) × Graph V M A)

  -- What the executor is run with: the compute function of the graph, the callbacks after
  -- patchEmptyCallbacks, the context's error at each superstep, and the order of the workers.
  pub record Executor : Type 0 where
    pub compute_fn : ComputeFunc V M A
    pub pre_step : Graph V M A → Option Error × Graph V M A
    pub post_step : Graph V M A → ℕ → Option Error × Graph V M A
    pub post_step_keep_running : Graph V M A → ℕ → (Bool × Option Error) × Graph V M A
    pub ctx_err : ℕ → Option Error
    pub schedule : Graph V M A → List Text

module _ {V M A : Type 0} where
  -- patchEmptyCallbacks: a callback that was not set succeeds, and lets the run go on.
  unfoldable pub or_pre_step :
      Option (Graph V M A → Option Error × Graph V M A) → Graph V M A → Option Error × Graph V M A
  or_pre_step none g = (none, g)
  or_pre_step (some f) g = f g

  unfoldable pub or_post_step :
      Option (Graph V M A → ℕ → Option Error × Graph V M A)
      → Graph V M A
      → ℕ
      → Option Error × Graph V M A
  or_post_step none g active = (none, g)
  or_post_step (some f) g active = f g active

  unfoldable pub or_post_step_keep_running :
      Option (Graph V M A → ℕ → (Bool × Option Error) × Graph V M A)
      → Graph V M A
      → ℕ
      → (Bool × Option Error) × Graph V M A
  or_post_step_keep_running none g active = ((true, none), g)
  or_post_step_keep_running (some f) g active = f g active

  -- NewExecutor also sets the superstep of the graph back to 0.
  unfoldable pub new_executor :
      ComputeFunc V M A
      → (ℕ → Option Error)
      → (Graph V M A → List Text)
      → ExecutorCallbacks V M A
      → Graph V M A
      → Executor V M A × Graph V M A
  unfolding or_pre_step or_post_step or_post_step_keep_running
  new_executor compute_fn ctx_err schedule cb g = (
    record {
      compute_fn = compute_fn;
      pre_step = or_pre_step cb.pre_step;
      post_step = or_post_step cb.post_step;
      post_step_keep_running = or_post_step_keep_running cb.post_step_keep_running;
      ctx_err = ctx_err;
      schedule = schedule;
    },
    record g { superstep = 0 },
  )

  -- The last stage of the loop's body: the error to return, and whether the loop goes on.
  unfoldable pub keep_stage : Executor V M A → Graph V M A → ℕ → (Option Error × Bool) × Graph V M A
  keep_stage ex g active =
      let ((keep_running, err), g') = ex.post_step_keep_running g active in
      elim err [ none ↦ ((none, keep_running), g') | some e ↦ ((some e, false), g') ]

  unfoldable pub post_stage : Executor V M A → Graph V M A → ℕ → (Option Error × Bool) × Graph V M A
  unfolding keep_stage
  post_stage ex g active =
      let (err, g') = ex.post_step g active in
      elim err [ none ↦ keep_stage ex g' active | some e ↦ ((some e, false), g') ]

  unfoldable pub step_stage : Executor V M A → Graph V M A → (Option Error × Bool) × Graph V M A
  unfolding post_stage
  step_stage ex g =
      let ((active, err), g') = step ex.compute_fn (ex.schedule g) g in
      elim err [ none ↦ post_stage ex g' active | some e ↦ ((some e, false), g') ]

  -- One round of the loop, up to the increment of the superstep.
  unfoldable pub round : Executor V M A → Graph V M A → (Option Error × Bool) × Graph V M A
  unfolding step_stage
  round ex g = elim (ex.ctx_err g.superstep) [
    | some e ↦ ((some e, false), g)
    | none ↦
        let (err, g') = ex.pre_step g in
        elim err [ none ↦ step_stage ex g' | some e ↦ ((some e, false), g') ]
  ]

  unfoldable pub advance : Graph V M A → Graph V M A
  advance g = record g { superstep = g.superstep + 1 }

  -- The loop; a break leaves the superstep as it is. `none` is the end of the fuel.
  unfoldable pub run : ℕ → Executor V M A → ℤ → Graph V M A → Option (Option Error × Graph V M A)
  unfolding advance
  run zero ex max_steps g = none
  run (suc fuel) ex max_steps g = elim (max_steps == pos 0) [
    | true ↦ some (none, g)
    | false ↦
        let ((err, again), g') = round ex g in
        elim again [ false ↦ some (err, g') | true ↦ run fuel ex (max_steps -ℤ pos 1) (advance g') ]
  ]

  unfoldable pub run_to_completion :
      ℕ → Executor V M A → Graph V M A → Option (Option Error × Graph V M A)
  run_to_completion fuel ex = run fuel ex (negsuc 0)

  unfoldable pub run_steps :
      ℕ → Executor V M A → ℤ → Graph V M A → Option (Option Error × Graph V M A)
  run_steps = run
