-- ===== src/Bsp/Step.antt =====
-- bspgraph/graph.go: one superstep. The vertices are handed to a pool of workers; `schedule` is the
-- order in which they are processed, and what is proved of a step holds for every schedule. A
-- vertex is processed as one atomic action.
pub mod Laws
pub mod Outcome
use etherscan.Base.{
  ℕ, ◌+◌, ◌-◌, ◌%◌, Bool, true, false, ◌||◌, Option, none, some, List, [], ◌∷◌, length, nat_eqb,
  if◌then◌else◌,
}
use etherscan.Base.Text.{Text, text_eq}
use etherscan.Base.Map.{lookup}
use etherscan.Bsp.Queue.{pending_messages, discard_messages}
use etherscan.Bsp.Errors.{Error, wrapped}
use etherscan.Bsp.Graph.{Vertex, Graph, msg_queue, set_msg_queue, update_vertex}

-- A compute function runs on the graph for the vertex with the given id. Its iterator is the queue
-- `superstep % 2` of that vertex.
abbrev pub ComputeFunc : Type 0 → Type 0 → Type 0 → Type 0
ComputeFunc V M A = Text → Graph V M A → Option Error × Graph V M A

-- tryEmitError: the channel holds one error, and keeps the first.
unfoldable pub try_emit_error : Option Error → Error → Option Error
try_emit_error none e = some e
try_emit_error (some first) e = some first

module _ {V M : Type 0} where
  unfoldable pub should_run : ℕ → Option (Vertex V M) → Bool
  should_run buffer none = false
  should_run buffer (some v) = v.active || pending_messages (msg_queue buffer v)

module _ {V M A : Type 0} where
  -- The vertex is marked active and counted before its compute function runs.
  unfoldable pub activate : Text → Graph V M A → Graph V M A
  unfolding update_vertex
  activate i g =
      update_vertex i (λ v. record v { active = true })
        (record g { active_in_step = g.active_in_step + 1 })

  -- v.msgQueue[buffer].DiscardMessages(), which never fails in memory.
  unfoldable pub discard : ℕ → Text → Graph V M A → Graph V M A
  unfolding update_vertex
  discard buffer i g =
      update_vertex i (λ v. set_msg_queue buffer (discard_messages (msg_queue buffer v)) v) g

  unfoldable pub run_compute :
      ComputeFunc V M A → Text → Option Error → Graph V M A → Option Error × Graph V M A
  unfolding try_emit_error
  run_compute compute_fn i err g =
      let buffer = g.superstep % 2 in
      let (failed, g') = compute_fn i (activate i g) in
      elim failed [
        | none ↦ (err, discard buffer i g')
        | some e ↦ (try_emit_error err (wrapped i e), g')
      ]

  -- One round of stepWorker; `err` is the content of the error channel.
  unfoldable pub step_worker :
      ComputeFunc V M A → Text → Option Error → Graph V M A → Option Error × Graph V M A
  step_worker compute_fn i err g =
      let (err', g') =
        if should_run (g.superstep % 2) (lookup i g.vertices)
        then run_compute compute_fn i err g
        else (err, g) in
      (err', record g' { pending_in_step = g'.pending_in_step - 1 })

  unfoldable pub run_workers :
      ComputeFunc V M A → List Text → Option Error → Graph V M A → Option Error × Graph V M A
  run_workers compute_fn [] err g = (err, g)
  run_workers compute_fn (i ∷ is) err g =
      let (err', g') = step_worker compute_fn i err g in run_workers compute_fn is err' g'

  -- The count of processed vertices, the error, and the graph after the step.
  unfoldable pub step :
      ComputeFunc V M A → List Text → Graph V M A → (ℕ × Option Error) × Graph V M A
  step compute_fn schedule g =
      let g0 = record g { active_in_step = 0; pending_in_step = length g.vertices } in
      let (err, g') = run_workers compute_fn schedule none g0 in
      if nat_eqb (length g.vertices) 0 then ((0, none), g0) else ((g'.active_in_step, err), g')
