-- ===== src/Dbsp/Aggregators.antt =====
-- dbspgraph/executor.go: how the workers' aggregators reach the master and come back. The aggregators
-- are those of gravitas, IntAccumulators.
pub mod Numbers
pub mod Exchange
pub mod Sharing
use etherscan.Base.{ℕ, Bool, true, false, Option, none, some, List, [], ◌∷◌, if◌then◌else◌}
use etherscan.Base.Text.{Text, text_eq}
use etherscan.Base.Map.{Map, lookup, alter}
use etherscan.Aggregator.Int.{IntAccumulator, get, set, aggregate, delta}
use etherscan.Rpc.Streams.{Result, ok, error}

-- A value of an aggregator as a message `W`, with the user's Serializer.
pub record Serializer (W E : Type 0) : Type 0 where
  pub serialize : ℕ → Result E W
  pub unserialize : W → Result E ℕ

pub data AggregatorError (E : Type 0) : Type 0 where
  unknown_aggregator : Text → AggregatorError E
  serializer_failed : Text → E → AggregatorError E

module _ {W E : Type 0} (serializer : Serializer W E) where
  -- The loop over the values of a step, with what is done to the aggregator of that name.
  unfoldable pub apply_values :
      (ℕ → IntAccumulator → IntAccumulator)
      → Map Text W
      → Map Text IntAccumulator
      → Option (AggregatorError E) × Map Text IntAccumulator
  apply_values f [] ags = (none, ags)
  apply_values f ((name, w) ∷ values) ags = elim (lookup name ags) [
    | none ↦ (some (unknown_aggregator name), ags)
    | some _ ↦ elim (serializer.unserialize w) [
      | error e ↦ (some (serializer_failed name e), ags)
      | ok val ↦ apply_values f values (alter name (f val) ags)
    ]
  ]

  unfoldable pub merge_worker_aggregator_deltas :
      Map Text W → Map Text IntAccumulator → Option (AggregatorError E) × Map Text IntAccumulator
  unfolding apply_values aggregate
  merge_worker_aggregator_deltas values ags = apply_values aggregate values ags

  unfoldable pub set_aggregator_values :
      Map Text W → Map Text IntAccumulator → Option (AggregatorError E) × Map Text IntAccumulator
  unfolding apply_values set
  set_aggregator_values values ags = apply_values set values ags

  -- The messages of all aggregators, and the aggregators, which Delta changes. A failure ends the
  -- loop, and the aggregators before it are changed.
  unfoldable pub serialize_aggregator_values :
      Bool
      → Map Text IntAccumulator
      → Result (AggregatorError E) (Map Text W) × Map Text IntAccumulator
  unfolding get delta
  serialize_aggregator_values deltas [] = (ok [], [])
  serialize_aggregator_values deltas ((name, a) ∷ ags) =
      let (val, a') = if deltas then delta a else (get a, a) in
      elim (serializer.serialize val) [
        | error e ↦ (error (serializer_failed name e), (name, a') ∷ ags)
        | ok w ↦
            let (rest, ags') = serialize_aggregator_values deltas ags in
            (elim rest [ error e ↦ error e | ok ws ↦ ok ((name, w) ∷ ws) ], (name, a') ∷ ags')
      ]

  -- The loop of the master's postStepCallback over the steps of the workers.
  unfoldable pub merge_steps :
      List (Map Text W)
      → Map Text IntAccumulator
      → Option (AggregatorError E) × Map Text IntAccumulator
  unfolding merge_worker_aggregator_deltas
  merge_steps [] ags = (none, ags)
  merge_steps (values ∷ steps) ags =
      let (err, ags') = merge_worker_aggregator_deltas values ags in
      elim err [ some e ↦ (some e, ags') | none ↦ merge_steps steps ags' ]
