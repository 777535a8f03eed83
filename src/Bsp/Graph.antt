-- ===== src/Bsp/Graph.antt =====
-- bspgraph/graph.go: the graph, its vertices and edges, and message sending. `V` is the type of the
-- values of vertices and edges, `M` of messages, `A` of aggregators (all `interface{}` in the
-- source). A method that changes `*Graph` returns the new graph; vertices are named by their ids.
pub mod Delivery
use etherscan.Base.{
  ℕ, ◌+◌, ◌%◌, Bool, true, false, Option, none, some, List, [], ◌∷◌, ◌++◌, nat_eqb, if◌then◌else◌,
}
use etherscan.Base.Text.{Text, text_eq}
use etherscan.Base.Map.{Map, lookup, insert, alter}
use etherscan.Bsp.Queue.{InMemoryQueue, new_in_memory_queue, enqueue}
use etherscan.Bsp.Errors.{
  Error, unknown_edge_source, invalid_message_destination, wrapped, is_destination_is_local,
}

pub record Edge (V : Type 0) : Type 0 where
  pub value : Option V
  pub dst_id : Text

-- `queue0` and `queue1` are `msgQueue[0]` and `msgQueue[1]`.
pub record Vertex (V M : Type 0) : Type 0 where
  pub id : Text
  pub value : V
  pub active : Bool
  pub queue0 : InMemoryQueue M
  pub queue1 : InMemoryQueue M
  pub edges : List (Edge V)

-- The fields that a superstep reads and writes. The channels and the wait group of the worker pool
-- have no counterpart: `Bsp.Step` takes the order in which the workers finish the vertices.
pub record Graph (V M A : Type 0) : Type 0 where
  pub superstep : ℕ
  pub aggregators : Map Text A
  pub vertices : Map Text (Vertex V M)
  pub relayer : Option (Text → M → Option Error)
  pub active_in_step : ℕ
  pub pending_in_step : ℕ

module _ {V M : Type 0} where
  -- v.msgQueue[i], for i = 0 or 1.
  unfoldable pub msg_queue : ℕ → Vertex V M → InMemoryQueue M
  msg_queue i v = if nat_eqb i 0 then v.queue0 else v.queue1

  unfoldable pub set_msg_queue : ℕ → InMemoryQueue M → Vertex V M → Vertex V M
  set_msg_queue i q v = if nat_eqb i 0 then record v { queue0 = q } else record v { queue1 = q }

  -- v.msgQueue[i].Enqueue(msg)
  unfoldable pub deliver : ℕ → M → Vertex V M → Vertex V M
  unfolding msg_queue set_msg_queue
  deliver i msg v = set_msg_queue i (enqueue msg (msg_queue i v)) v

  unfoldable pub append_edge : Edge V → Vertex V M → Vertex V M
  append_edge e v = record v { edges = v.edges ++ e ∷ [] }

  unfoldable pub freeze : Vertex V M → Vertex V M
  freeze v = record v { active = false }

  unfoldable pub set_value : V → Vertex V M → Vertex V M
  set_value val v = record v { value = val }

  unfoldable pub new_vertex : Text → V → Vertex V M
  new_vertex i val = record {
    id = i;
    value = val;
    active = true;
    queue0 = new_in_memory_queue;
    queue1 = new_in_memory_queue;
    edges = [];
  }

module _ {M : Type 0} where
  -- The destination is no local vertex.
  unfoldable pub send_remote : Text → M → Option (Text → M → Option Error) → Option Error
  send_remote dst_id msg none = some (wrapped dst_id invalid_message_destination)
  send_remote dst_id msg (some relay) = elim (relay dst_id msg) [
    | none ↦ none
    | some e ↦
        if is_destination_is_local e
        then some (wrapped dst_id invalid_message_destination)
        else some e
  ]

module _ {V M A : Type 0} where
  unfoldable pub new_graph : Graph V M A
  new_graph = record {
    superstep = 0;
    aggregators = [];
    vertices = [];
    relayer = none;
    active_in_step = 0;
    pending_in_step = 0;
  }

  unfoldable pub reset : Graph V M A → Graph V M A
  reset g = record g { superstep = 0; vertices = []; aggregators = [] }

  -- A write through the pointer that `g.vertices` holds for the id.
  unfoldable pub update_vertex : Text → (Vertex V M → Vertex V M) → Graph V M A → Graph V M A
  update_vertex i f g = record g { vertices = alter i f g.vertices }

  unfoldable pub add_vertex : Text → V → Graph V M A → Graph V M A
  unfolding update_vertex
  add_vertex i init_value g = elim (lookup i g.vertices) [
    | none ↦ record g { vertices = insert i (new_vertex i init_value) g.vertices }
    | some _ ↦ update_vertex i (set_value init_value) g
  ]

  unfoldable pub add_edge : Text → Text → Option V → Graph V M A → Option Error × Graph V M A
  unfolding update_vertex append_edge
  add_edge src_id dst_id init_value g = elim (lookup src_id g.vertices) [
    | none ↦ (some (wrapped src_id unknown_edge_source), g)
    | some _ ↦ (
      none,
      update_vertex src_id (append_edge (record { value = init_value; dst_id = dst_id })) g,
    )
  ]

  unfoldable pub register_aggregator : Text → A → Graph V M A → Graph V M A
  register_aggregator name aggr g = record g { aggregators = insert name aggr g.aggregators }

  unfoldable pub aggregator : Text → Graph V M A → Option A
  aggregator name g = lookup name g.aggregators

  unfoldable pub register_relayer : (Text → M → Option Error) → Graph V M A → Graph V M A
  register_relayer r g = record g { relayer = some r }

  unfoldable pub send_message : Text → M → Graph V M A → Option Error × Graph V M A
  unfolding send_remote update_vertex deliver
  send_message dst_id msg g = elim (lookup dst_id g.vertices) [
    | none ↦ (send_remote dst_id msg g.relayer, g)
    | some _ ↦ (none, update_vertex dst_id (deliver ((g.superstep + 1) % 2) msg) g)
  ]

  -- The loop of BroadcastToNeighbors; the first error ends it.
  unfoldable pub broadcast_edges : List (Edge V) → M → Graph V M A → Option Error × Graph V M A
  broadcast_edges [] msg g = (none, g)
  broadcast_edges (e ∷ es) msg g =
      let (err, g') = send_message e.dst_id msg g in
      elim err [ none ↦ broadcast_edges es msg g' | some x ↦ (some x, g') ]

  unfoldable pub broadcast_to_neighbors : Vertex V M → M → Graph V M A → Option Error × Graph V M A
  unfolding broadcast_edges
  broadcast_to_neighbors v = broadcast_edges v.edges
