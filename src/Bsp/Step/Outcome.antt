-- ===== src/Bsp/Step/Outcome.antt =====
-- bspgraph/graph.go: the error that a superstep reports, and the countdown of its vertices.
use etherscan.Base.{◌-◌, ◌≡◌, refl, Option, some, List, [], ◌∷◌, arith, length}
use etherscan.Base.Text.{Text, text_eq}
use etherscan.Bsp.Errors.{Error}
use etherscan.Bsp.Graph.{Graph, update_vertex}
use etherscan.Bsp.Step.{
  ComputeFunc, try_emit_error, activate, discard, run_compute, step_worker, run_workers,
}

module _ {V M A : Type 0} (compute_fn : ComputeFunc V M A) where
  step_worker_keeps_error :
      (e : Error) (i : Text) (g : Graph V M A) → (step_worker compute_fn i (some e) g).0 ≡ some e
  unfolding step_worker run_compute try_emit_error
  step_worker_keeps_error e i g = ground arith

  run_workers_from :
      (e : Error) (is : List Text) (err : Option Error) (g : Graph V M A)
      → err ≡ some e
      → (run_workers compute_fn is err g).0 ≡ some e
  unfolding run_workers
  run_workers_from e [] err g h = h
  run_workers_from e (i ∷ is) err g h =
      run_workers_from e is (step_worker compute_fn i err g).0 (step_worker compute_fn i err g).1
        (rw h (step_worker_keeps_error e i g))

  -- The error channel holds one error, and later failures of the same superstep do not replace it.
  run_workers_keeps_error :
      (e : Error) (is : List Text) (g : Graph V M A)
      → (run_workers compute_fn is (some e) g).0 ≡ some e
  run_workers_keeps_error e is g = run_workers_from e is (some e) g refl

  -- The compute function leaves the counter of pending vertices alone.
  abbrev pub KeepsPending : Type 0
  KeepsPending =
      (i : Text) (g : Graph V M A) → (compute_fn i g).1.pending_in_step ≡ g.pending_in_step

  step_worker_pending :
      KeepsPending
      → (err : Option Error) (i : Text) (g : Graph V M A)
      → (step_worker compute_fn i err g).1.pending_in_step ≡ g.pending_in_step - 1
  unfolding step_worker run_compute discard activate update_vertex
  step_worker_pending keeps err i g = ground (arith, keeps i (activate i g))

  -- Every vertex of the schedule is counted off once, whether it runs, fails or is idle, so that the
  -- counter is 0 at the end of a step that handles all pending vertices.
  pub run_workers_pending :
      KeepsPending
      → (err : Option Error) (is : List Text) (g : Graph V M A)
      → (run_workers compute_fn is err g).1.pending_in_step ≡ g.pending_in_step - length is
  unfolding run_workers
  run_workers_pending keeps err [] g = omega arith
  run_workers_pending keeps err (i ∷ is) g =
      let (err', g') = step_worker compute_fn i err g in
      omega (
        arith,
        step_worker_pending keeps err i g,
        run_workers_pending keeps (step_worker compute_fn i err g).0 is
            (step_worker compute_fn i err g).1,
      )
