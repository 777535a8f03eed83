-- ===== src/Bsp/Step/Laws.antt =====
-- bspgraph/graph.go: equations for one round of a worker, by what the compute function returns.
use etherscan.Base.{
  [], ◌∙◌, ℕ, ap, length, All, ◌-◌, ◌%◌, ◌≡◌, true, false, Option, none, some, List, ◌∷◌, arith,
}
use etherscan.Base.Text.{Text, text_eq}
use etherscan.Base.Map.{lookup}
use etherscan.Bsp.Errors.{Error, wrapped}
use etherscan.Bsp.Graph.{Graph}
use etherscan.Bsp.Step.{
  ComputeFunc, try_emit_error, activate, discard, should_run, run_compute, step_worker, run_workers,
}

module _ {V M A : Type 0} (compute_fn : ComputeFunc V M A) (i : Text) (err : Option Error)
    (g : Graph V M A) where
  abbrev pub finished : Graph V M A → Graph V M A
  finished g' = record g' { pending_in_step = g'.pending_in_step - 1 }

  pub step_worker_idle :
      should_run (g.superstep % 2) (lookup i g.vertices) ≡ false
      → step_worker compute_fn i err g ≡ (err, finished g)
  unfolding step_worker
  step_worker_idle h = ground arith

  pub step_worker_ok :
      (g' : Graph V M A)
      → should_run (g.superstep % 2) (lookup i g.vertices) ≡ true
      → compute_fn i (activate i g) ≡ (none, g')
      → step_worker compute_fn i err g ≡ (err, finished (discard (g.superstep % 2) i g'))
  unfolding step_worker run_compute
  step_worker_ok g' h k = ground arith

  pub step_worker_failed :
      (e : Error) (g' : Graph V M A)
      → should_run (g.superstep % 2) (lookup i g.vertices) ≡ true
      → compute_fn i (activate i g) ≡ (some e, g')
      → step_worker compute_fn i err g ≡ (try_emit_error err (wrapped i e), finished g')
  unfolding step_worker run_compute
  step_worker_failed e g' h k = ground arith

  pub run_workers_cons :
      (is : List Text) (err' : Option Error) (g' : Graph V M A)
      → step_worker compute_fn i err g ≡ (err', g')
      → run_workers compute_fn (i ∷ is) err g ≡ run_workers compute_fn is err' g'
  unfolding run_workers
  run_workers_cons is err' g' h = ground arith

module _ {V M A : Type 0} (compute_fn : ComputeFunc V M A) where
  -- Where no vertex of the schedule is active or has messages to read, the workers only count the
  -- vertices off.
  pub run_workers_idle :
      (is : List Text) (err : Option Error) (g : Graph V M A)
      → All (λ i. should_run (g.superstep % 2) (lookup i g.vertices) ≡ false) is
      → run_workers compute_fn is err g
        ≡ (err, record g { pending_in_step = g.pending_in_step - length is })
  unfolding run_workers
  run_workers_idle [] err g h =
      ap (λ (p : ℕ). (err, record g { pending_in_step = p })) (omega arith)
  run_workers_idle (i ∷ is) err g h =
      run_workers_cons compute_fn i err g is err (finished compute_fn i err g g)
        (step_worker_idle compute_fn i err g h.0)
      ∙ run_workers_idle is err (finished compute_fn i err g g) h.1
      ∙ ap (λ (p : ℕ). (err, record g { pending_in_step = p })) (omega arith)
