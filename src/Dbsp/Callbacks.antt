-- ===== src/Dbsp/Callbacks.antt =====
-- dbspgraph/executor.go: the executor callbacks of the master and of the workers, around those of the
-- user. A barrier is what its methods return: WaitForWorkers the steps of the workers, NotifyWorkers an
-- error or nil, and Wait the step of the master for the one it is given.
pub mod Rounds
pub mod Active
use etherscan.Base.{ℕ, ◌+◌, ◌%◌, Bool, true, false, Option, none, some, List, [], ◌∷◌, map}
use etherscan.Base.Text.{Text}
use etherscan.Base.Map.{Map}
use etherscan.Aggregator.Int.{word, IntAccumulator}
use etherscan.Bsp.Errors.{Error}
use etherscan.Bsp.Graph.{Graph}
use etherscan.Bsp.Executor.{ExecutorCallbacks, or_pre_step, or_post_step, or_post_step_keep_running}
use etherscan.Rpc.Streams.{Result, ok, error}
use etherscan.Dbsp.Aggregators.{
  Serializer, AggregatorError, merge_steps, serialize_aggregator_values, set_aggregator_values,
}

pub data StepType : Type 0 where
  pre post post_keep_running executed_graph persisted_results completed_job : StepType

-- `active_in_step` is an int64, as its bit pattern.
pub record Step (W : Type 0) : Type 0 where
  pub step_type : StepType
  pub aggregator_values : Map Text W
  pub active_in_step : ℕ

-- The error of a barrier, of the aggregators, or of the user's callback.
pub data CallbackError (B E : Type 0) : Type 0 where
  barrier_failed : B → CallbackError B E
  aggregators_failed : AggregatorError E → CallbackError B E
  callback_failed : Error → CallbackError B E

pub record MasterBarrier (W B : Type 0) : Type 0 where
  pub wait_for_workers : StepType → Result B (List (Step W))
  pub notify_workers : Step W → Option B

abbrev pub empty_step : {W : Type 0} → StepType → Step W
empty_step t = record { step_type = t; aggregator_values = []; active_in_step = 0 }

-- The loop that counts the active vertices of all workers.
unfoldable pub add_active : {W : Type 0} → List (Step W) → ℕ → ℕ
add_active [] active_in_step = active_in_step
add_active (s ∷ steps) active_in_step =
    add_active steps ((active_in_step + s.active_in_step) % word)

module _ {V M B E : Type 0} where
  abbrev pub from_callback :
      Option Error × Graph V M IntAccumulator
      → Option (CallbackError B E) × Graph V M IntAccumulator
  from_callback (none, g) = (none, g)
  from_callback (some e, g) = (some (callback_failed e), g)

  abbrev pub from_keep_running :
      (Bool × Option Error) × Graph V M IntAccumulator
      → (Bool × Option (CallbackError B E)) × Graph V M IntAccumulator
  from_keep_running ((again, none), g) = ((again, none), g)
  from_keep_running ((again, some e), g) = ((again, some (callback_failed e)), g)

module _ {V M W B E : Type 0} where
  unfoldable pub master_pre_step :
      MasterBarrier W B
      → ExecutorCallbacks V M IntAccumulator
      → Graph V M IntAccumulator
      → Option (CallbackError B E) × Graph V M IntAccumulator
  unfolding or_pre_step
  master_pre_step barrier orig g = elim (barrier.wait_for_workers pre) [
    | error b ↦ (some (barrier_failed b), g)
    | ok _ ↦ elim (barrier.notify_workers (empty_step pre)) [
      | some b ↦ (some (barrier_failed b), g)
      | none ↦ from_callback (or_pre_step orig.pre_step g)
    ]
  ]

  unfoldable pub worker_pre_step :
      (Step W → Result B (Step W))
      → ExecutorCallbacks V M IntAccumulator
      → Graph V M IntAccumulator
      → Option (CallbackError B E) × Graph V M IntAccumulator
  unfolding or_pre_step
  worker_pre_step wait orig g = elim (wait (empty_step pre)) [
    | error b ↦ (some (barrier_failed b), g)
    | ok _ ↦ from_callback (or_pre_step orig.pre_step g)
  ]

  unfoldable pub master_post_step_keep_running :
      MasterBarrier W B
      → ExecutorCallbacks V M IntAccumulator
      → Graph V M IntAccumulator
      → ℕ
      → (Bool × Option (CallbackError B E)) × Graph V M IntAccumulator
  unfolding add_active or_post_step_keep_running
  master_post_step_keep_running barrier orig g active_in_step =
      elim (barrier.wait_for_workers post_keep_running) [
        | error b ↦ ((false, some (barrier_failed b)), g)
        | ok steps ↦
            let active = add_active steps active_in_step in
            elim (barrier.notify_workers
              (record (empty_step post_keep_running) { active_in_step = active })) [
                | some b ↦ ((false, some (barrier_failed b)), g)
                | none ↦
                    from_keep_running
                      (or_post_step_keep_running orig.post_step_keep_running g active)
              ]
      ]

  unfoldable pub worker_post_step_keep_running :
      (Step W → Result B (Step W))
      → ExecutorCallbacks V M IntAccumulator
      → Graph V M IntAccumulator
      → ℕ
      → (Bool × Option (CallbackError B E)) × Graph V M IntAccumulator
  unfolding or_post_step_keep_running
  worker_post_step_keep_running wait orig g active_in_step =
      elim (wait
        (record (empty_step post_keep_running) { active_in_step = active_in_step % word })) [
          | error b ↦ ((false, some (barrier_failed b)), g)
          | ok step ↦
              from_keep_running
                (or_post_step_keep_running orig.post_step_keep_running g step.active_in_step)
        ]

module _ {V M W E : Type 0} (serializer : Serializer W E) where
  -- The step that the master answers with at the end of a superstep.
  unfoldable pub master_answer :
      List (Step W)
      → Graph V M IntAccumulator
      → Result (AggregatorError E) (Step W) × Graph V M IntAccumulator
  unfolding merge_steps serialize_aggregator_values
  master_answer steps g =
      let (err, ags) =
        merge_steps serializer (map (λ s. s.aggregator_values) steps) g.aggregators in
      elim err [
        | some e ↦ (error e, record g { aggregators = ags })
        | none ↦
            let (values, ags') = serialize_aggregator_values serializer false ags in
            (
              elim values [
                | error e ↦ error e
                | ok ws ↦
                    ok (record { step_type = post; aggregator_values = ws; active_in_step = 0 })
              ],
              record g { aggregators = ags' },
            )
      ]

  -- The step of a worker at the end of a superstep, with the deltas of its aggregators.
  unfoldable pub worker_step :
      Graph V M IntAccumulator → Result (AggregatorError E) (Step W) × Graph V M IntAccumulator
  unfolding serialize_aggregator_values
  worker_step g =
      let (values, ags) = serialize_aggregator_values serializer true g.aggregators in
      (
        elim values [
          | error e ↦ error e
          | ok ws ↦ ok (record { step_type = post; aggregator_values = ws; active_in_step = 0 })
        ],
        record g { aggregators = ags },
      )

  -- What a worker does with the answer of the master, before the user's callback.
  unfoldable pub take_answer :
      Step W → Graph V M IntAccumulator → Option (AggregatorError E) × Graph V M IntAccumulator
  unfolding set_aggregator_values
  take_answer step g =
      let (err, ags) = set_aggregator_values serializer step.aggregator_values g.aggregators in
      (err, record g { aggregators = ags })

module _ {V M W B E : Type 0} (serializer : Serializer W E) where
  unfoldable pub master_post_step :
      MasterBarrier W B
      → ExecutorCallbacks V M IntAccumulator
      → Graph V M IntAccumulator
      → ℕ
      → Option (CallbackError B E) × Graph V M IntAccumulator
  unfolding master_answer or_post_step
  master_post_step barrier orig g active_in_step = elim (barrier.wait_for_workers post) [
    | error b ↦ (some (barrier_failed b), g)
    | ok steps ↦
        let (answer, g') = master_answer serializer steps g in
        elim answer [
          | error e ↦ (some (aggregators_failed e), g')
          | ok step ↦ elim (barrier.notify_workers step) [
            | some b ↦ (some (barrier_failed b), g')
            | none ↦ from_callback (or_post_step orig.post_step g' active_in_step)
          ]
        ]
  ]

  unfoldable pub worker_post_step :
      (Step W → Result B (Step W))
      → ExecutorCallbacks V M IntAccumulator
      → Graph V M IntAccumulator
      → ℕ
      → Option (CallbackError B E) × Graph V M IntAccumulator
  unfolding worker_step take_answer or_post_step
  worker_post_step wait orig g active_in_step =
      let (sent, g1) = worker_step serializer g in
      elim sent [
        | error e ↦ (some (aggregators_failed e), g1)
        | ok step ↦ elim (wait step) [
          | error b ↦ (some (barrier_failed b), g1)
          | ok answer ↦
              let (err, g2) = take_answer serializer answer g1 in
              elim err [
                | some e ↦ (some (aggregators_failed e), g2)
                | none ↦ from_callback (or_post_step orig.post_step g2 active_in_step)
              ]
        ]
      ]
