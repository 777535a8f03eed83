-- ===== src/Gravitas/Compute.antt =====
-- gravitas/compute.go: the compute function of the score calculation.
use etherscan.Base.{ℕ, zero, suc, ◌+◌, ◌%◌, Option, none, some, List, [], ◌∷◌, length}
use etherscan.Base.Text.{Text, text_eq, codes}
use etherscan.Base.Map.{lookup, insert}
use etherscan.Bsp.Queue.{InMemoryQueue, fold_messages}
use etherscan.Bsp.Errors.{Error, panicked}
use etherscan.Bsp.Graph.{
  Vertex, Graph, msg_queue, set_msg_queue, freeze, set_value, update_vertex, aggregator,
  send_message,
}
use etherscan.Bsp.Step.{ComputeFunc}
use etherscan.TxGraph.Types.{Tx}
use etherscan.Aggregator.Int.{IntAccumulator, aggregate, word}
use etherscan.Gravitas.Float.{BigFloat}

pub record VertexData (F : Type 0) : Type 0 where
  pub value : F
  pub txs : List Tx

pub record TxMessage (F : Type 0) : Type 0 where
  pub value : F

-- The graph of the calculator.
abbrev pub ScoreGraph : Type 0 → Type 0
ScoreGraph F = Graph (VertexData F) (TxMessage F) IntAccumulator

abbrev pub ScoreVertex : Type 0 → Type 0
ScoreVertex F = Vertex (VertexData F) (TxMessage F)

abbrev pub wallet_count : Text
wallet_count = codes "wallet_count"

abbrev pub tx_count : Text
tx_count = codes "tx_count"

module _ {F : Type 0} where
  -- g.Aggregator(name).Aggregate(n)
  unfoldable pub aggregate_into : Text → ℕ → ScoreGraph F → Option Error × ScoreGraph F
  aggregate_into name n g = elim (aggregator name g) [
    | none ↦ (some panicked, g)
    | some a ↦ (none, record g { aggregators = insert name (aggregate n a) g.aggregators })
  ]

  -- Superstep 0. `len` is an int.
  unfoldable pub count_step : VertexData F → ScoreGraph F → Option Error × ScoreGraph F
  count_step v_data g =
      let (err, g1) = aggregate_into wallet_count 1 g in
      elim err [
        | none ↦ aggregate_into tx_count (length v_data.txs % word) g1
        | some e ↦ (some e, g1)
      ]

module _ {F : Type 0} where
  -- vData.Value = sum; v.SetValue(vData); v.Freeze(), with the queue that the loop left.
  unfoldable pub receive_into :
      VertexData F → ScoreVertex F → F × InMemoryQueue (TxMessage F) → ScoreVertex F
  receive_into v_data v (sum, q) =
      freeze (set_value (record v_data { value = sum }) (set_msg_queue 0 q v))

module _ (fl : BigFloat) where
  open fl use {Carrier, zero_float, set, set_int, add, sub}

  -- sum.Add(sum, value); sum.Add(sum, fee)
  unfoldable pub add_tx : Carrier → Tx → Carrier
  add_tx sum tx = add (add sum (set_int tx.value)) (set_int tx.transaction_fee)

  -- The loop of superstep 1, and the sum that it leaves.
  unfoldable pub send_txs :
      List Tx → Carrier → ScoreGraph Carrier → (Option Error × Carrier) × ScoreGraph Carrier
  unfolding add_tx
  send_txs [] sum g = ((none, sum), g)
  send_txs (tx ∷ txs) sum g =
      let sum' = add_tx sum tx in
      let (err, g') = send_message tx.to (record { value = set_int tx.value }) g in
      elim err [ none ↦ send_txs txs sum' g' | some e ↦ ((some e, sum'), g') ]

  -- Superstep 1, for the vertex `i`.
  unfoldable pub send_step :
      Text → VertexData Carrier → ScoreGraph Carrier → Option Error × ScoreGraph Carrier
  unfolding send_txs
  send_step i v_data g =
      let ((err, sum), g') = send_txs v_data.txs zero_float g in
      elim err [
        | none ↦ (
          none,
          update_vertex i
              (λ v. freeze (set_value (record { value = sub v_data.value sum; txs = [] }) v)) g',
        )
        | some e ↦ (some e, g')
      ]

  -- sum.Add(sum, msgValue)
  unfoldable pub add_message : Carrier → TxMessage Carrier → Carrier
  add_message sum msg = add sum msg.value

  -- Superstep 2; the messages are those of `msgQueue[2 % 2]`.
  unfoldable pub receive_step :
      Text → ScoreVertex Carrier → ScoreGraph Carrier → Option Error × ScoreGraph Carrier
  unfolding add_message receive_into
  receive_step i v g =
      let q = msg_queue 0 v in
      elim (fold_messages (length q.msgs + 1) add_message (set v.value.value) q) [
        | none ↦ (some panicked, g)
        | some result ↦ (none, update_vertex i (λ w. receive_into v.value w result) g)
      ]

  -- The switch on the superstep.
  unfoldable pub compute_at :
      ℕ → Text → ScoreVertex Carrier → ScoreGraph Carrier → Option Error × ScoreGraph Carrier
  unfolding count_step send_step receive_step
  compute_at zero i v g = count_step v.value g
  compute_at (suc zero) i v g = send_step i v.value g
  compute_at (suc (suc zero)) i v g = receive_step i v g
  compute_at (suc (suc (suc n))) i v g = (none, update_vertex i freeze g)

  unfoldable pub compute : ComputeFunc (VertexData Carrier) (TxMessage Carrier) IntAccumulator
  unfolding compute_at
  compute i g = elim (lookup i g.vertices) [
    | none ↦ (some panicked, g)
    | some v ↦ compute_at g.superstep i v g
  ]
