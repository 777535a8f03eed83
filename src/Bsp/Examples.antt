-- ===== src/Bsp/Examples.antt =====
-- bspgraph/: runs at concrete inputs.
use mathlib.Core.Option
use etherscan.Base.{◌*◌, ℕ, ◌+◌, ◌≡◌, refl, true, false, none, some, List, [], ◌∷◌, arith, pos}
use etherscan.Base.Text.{Text, text_eq, text_eqb}
use etherscan.Base.Map.{lookup, has_key}
use etherscan.Bsp.Queue.{InMemoryQueue, fold_messages}
use etherscan.Bsp.Queue.Lifo.{fold_messages-lifo}
use etherscan.Bsp.Errors.{foreign}
use etherscan.Bsp.Graph.{
  Edge, Vertex, Graph, send_message, broadcast_to_neighbors, msg_queue, update_vertex, freeze,
}
use etherscan.Bsp.Graph.Delivery.{
  HasTargets, deliver_times, broadcast_to_neighbors_delivers, send_message_isolated,
}
use etherscan.Bsp.Step.{ComputeFunc, step, run_workers, step_worker, run_compute, activate, discard}
use etherscan.Bsp.Step.Outcome.{KeepsPending, run_workers_pending}
use etherscan.Bsp.Executor.{Executor, round, run_steps, step_stage, post_stage, keep_stage}
use etherscan.Bsp.Executor.Bounds.{KeepsSuperstep, EndsWithin, run_steps_ends}

abbrev name : ℕ → Text
name n = n ∷ []

abbrev edge_to : ℕ → Edge ℕ
edge_to n = record { value = none; dst_id = name n }

abbrev vertex : ℕ → List (Edge ℕ) → Vertex ℕ ℕ
vertex n edges = record {
  id = name n;
  value = 0;
  active = true;
  queue0 = record { msgs = []; latched_msg = none };
  queue1 = record { msgs = []; latched_msg = none };
  edges = edges;
}

abbrev source : Vertex ℕ ℕ
source = vertex 1 (edge_to 2 ∷ edge_to 1 ∷ edge_to 2 ∷ [])

abbrev two : Graph ℕ ℕ ℕ
two = record {
  superstep = 0;
  aggregators = [];
  vertices = (name 1, source) ∷ (name 2, vertex 2 []) ∷ [];
  relayer = none;
  active_in_step = 0;
  pending_in_step = 2;
}

two-HasTargets : HasTargets two.vertices source.edges
unfolding has_key lookup text_eqb
two-HasTargets = (refl, (refl, (refl, tt)))

broadcast_to_neighbors_example :
    let (err, g') = broadcast_to_neighbors source 7 two in
    (err ≡ none)
    × (lookup (name 2) g'.vertices
        ≡ Option.map (deliver_times 2 1 7) (lookup (name 2) two.vertices))
unfolding text_eqb
broadcast_to_neighbors_example =
    broadcast_to_neighbors_delivers source 7 two (name 2) two-HasTargets

send_message_example :
    Option.map (msg_queue 0) (lookup (name 2) (send_message (name 2) 5 two).1.vertices)
    ≡ Option.map (msg_queue 0) (lookup (name 2) two.vertices)
send_message_example = send_message_isolated (name 2) (name 2) 5 two

-- Digits appended one after the other show the order.
abbrev digits : ℕ → ℕ → ℕ
digits s d = 10 * s + d

abbrev three_messages : InMemoryQueue ℕ
three_messages = record { msgs = 1 ∷ 2 ∷ 3 ∷ []; latched_msg = none }

fold_messages_example :
    (q : InMemoryQueue ℕ) × (fold_messages 4 digits 0 three_messages ≡ some (321, q))
    × (q.msgs ≡ [])
fold_messages_example = fold_messages-lifo digits 4 0 three_messages (omega arith)

-- Fails at the vertex 2, and freezes the others.
abbrev fails_at_2 : ComputeFunc ℕ ℕ ℕ
fails_at_2 i g = elim (text_eqb i (name 2)) [
  | true ↦ (some (foreign 2), g)
  | false ↦ (none, update_vertex i freeze g)
]

fails_at_2-KeepsPending : KeepsPending fails_at_2
unfolding update_vertex
fails_at_2-KeepsPending i g = ground arith

run_workers_pending_example :
    (run_workers fails_at_2 (name 1 ∷ name 2 ∷ []) none two).1.pending_in_step ≡ 0
run_workers_pending_example =
    run_workers_pending fails_at_2 fails_at_2-KeepsPending none (name 1 ∷ name 2 ∷ []) two

-- An executor that always goes on.
abbrev tireless : Executor ℕ ℕ ℕ
tireless = record {
  compute_fn = λ i g. (none, update_vertex i freeze g);
  pre_step = λ g. (none, g);
  post_step = λ g active. (none, g);
  post_step_keep_running = λ g active. ((true, none), g);
  ctx_err = λ s. none;
  schedule = λ g. name 1 ∷ [];
}

tireless-KeepsSuperstep : KeepsSuperstep tireless
unfolding round step_stage post_stage keep_stage step run_workers step_worker run_compute activate
    discard update_vertex
tireless-KeepsSuperstep g = ground arith

run_steps_example : EndsWithin tireless 3 two (run_steps 4 tireless (pos 3) two)
run_steps_example = run_steps_ends tireless 4 3 two tireless-KeepsSuperstep (omega arith)
