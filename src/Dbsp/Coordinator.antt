-- ===== src/Dbsp/Coordinator.antt =====
-- dbspgraph/master_job_coordinator.go, worker_job_coordinator.go: how a job is started, run, completed and
-- aborted. What the runner, the executor and the barriers return is given; what is done with the
-- runner and sent to the workers is written down.
pub mod Calls
mod Examples
use etherscan.Base.{
  ℕ, zero, suc, ◌+◌, Bool, true, false, Option, none, some, List, [], ◌∷◌, ◌++◌, if◌then◌else◌, pos,
  ◌⊎◌, inl, inr,
}
use etherscan.Base.Text.{Text}
use etherscan.Partition.Range
use etherscan.Partition.Range.{Range, new_range, partition_extents}
use etherscan.Dbsp.Callbacks.{StepType, executed_graph, persisted_results, completed_job}

-- The calls of the job runner.
pub data Call : Type 0 where
  start_job complete_job abort_job : Call

-- Errors `E` of the runner, the executor and the streams; `job_aborted` is errJobAborted.
pub data JobError (E : Type 0) : Type 0 where
  unable_to_start : E → JobError E
  unable_to_assign : Range.Error → JobError E
  unable_to_encode : E → JobError E
  failed : E → JobError E
  job_aborted : JobError E

-- The details of a job for a worker; `Time` is a time, and `Stamp` its protocol buffer.
pub record JobDetails (Time : Type 0) : Type 0 where
  pub job_id : Text
  pub created_at : Time
  pub partition_from_addr : Text
  pub partition_to_addr : Text

-- What happens in the job: an error, or `none`, of each call. `is_canceled` is xerrors.Is with
-- context.Canceled, and `wait` the barrier's WaitForWorkers or Wait.
pub record Outcomes (E : Type 0) : Type 0 where
  pub on_start : Option E
  pub on_run : Option E
  pub on_complete : Option E
  pub wait : StepType → Option E
  pub notify : StepType → Option E
  pub is_canceled : E → Bool
  pub async_worker_err : Option E

-- The result of a method, the calls of the runner, and whether the context of the job was cancelled.
pub record Ended (E : Type 0) : Type 0 where
  pub err : Option (JobError E)
  pub calls : List Call
  pub job_cancelled : Bool

module _ {E Time Stamp : Type 0} (timestamp_proto : Time → Stamp ⊎ E) where
  -- The details that one worker is sent.
  unfoldable pub publish_job_details : JobDetails Time → Range → ℕ → JobDetails Stamp ⊎ JobError E
  publish_job_details d range assigned_partition =
      let ((from, to), err) = partition_extents (pos assigned_partition) range in
      elim err [
        | some e ↦ inr (unable_to_assign e)
        | none ↦ elim (timestamp_proto d.created_at) [
          | inr e ↦ inr (unable_to_encode e)
          | inl ts ↦ inl (record {
            job_id = d.job_id;
            created_at = ts;
            partition_from_addr = from;
            partition_to_addr = to;
          })
        ]
      ]

  -- The loop of RunJob over the workers from `i` on, `left` of them, up to the first error.
  unfoldable pub publish_all :
      JobDetails Time → Range → ℕ → ℕ → Option (JobError E) × List (JobDetails Stamp)
  unfolding publish_job_details
  publish_all d range i zero = (none, [])
  publish_all d range i (suc left) =
      let (err, sent) = publish_all d range (suc i) left in
      elim (publish_job_details d range i) [
        | inr e ↦ (some e, [])
        | inl details ↦ (err, details ∷ sent)
      ]

module _ {E : Type 0} where
  -- A step of a chain of `else if`s: go on if there is no error.
  abbrev pub then_do : Option E → Option (JobError E) × List Call → Option (JobError E) × List Call
  then_do none next = next
  then_do (some e) next = (some (failed e), [])

  -- The same where any error becomes errJobAborted.
  abbrev pub or_abort : Option E → Option (JobError E) × List Call → Option (JobError E) × List Call
  or_abort none next = next
  or_abort (some e) next = (some job_aborted, [])

  abbrev pub with_call : Call → Option (JobError E) × List Call → Option (JobError E) × List Call
  with_call c (err, calls) = (err, c ∷ calls)

  -- runJobToCompletion of the master, and of a worker, which does not look at the error of the last Wait.
  unfoldable pub master_run_job_to_completion : Outcomes E → Option (JobError E) × List Call
  master_run_job_to_completion o = then_do o.on_run (
      then_do (o.wait executed_graph) (
        then_do (o.notify executed_graph) (
          with_call complete_job (
            then_do o.on_complete (
              then_do (o.wait persisted_results) (
                then_do (o.notify persisted_results)
                  (then_do (o.wait completed_job) (none, []))))))))

  unfoldable pub worker_run_job_to_completion : Outcomes E → Option (JobError E) × List Call
  worker_run_job_to_completion o = then_do o.on_run (
      or_abort (o.wait executed_graph) (
        with_call complete_job
          (then_do o.on_complete (or_abort (o.wait persisted_results) (none, [])))))

  abbrev pub canceled_as_aborted : (E → Bool) → JobError E → JobError E
  canceled_as_aborted is_canceled (failed e) = if is_canceled e then job_aborted else failed e
  canceled_as_aborted is_canceled e = e

  -- The end of RunJob: an error aborts the job, and the context is cancelled in any case.
  abbrev pub finish_job : (E → Bool) → Option E → Option (JobError E) × List Call → Ended E
  finish_job is_canceled async (none, calls) = record {
    err = none;
    calls = start_job ∷ calls;
    job_cancelled = true;
  }
  finish_job is_canceled none (some e, calls) = record {
    err = some (canceled_as_aborted is_canceled e);
    calls = start_job ∷ calls ++ abort_job ∷ [];
    job_cancelled = true;
  }
  finish_job is_canceled (some a) (some e, calls) = record {
    err = some (failed a);
    calls = start_job ∷ calls ++ abort_job ∷ [];
    job_cancelled = true;
  }

  -- RunJob of the master, after what publishJobDetails gave for the workers.
  unfoldable pub master_run_job : Option (JobError E) → Outcomes E → Ended E
  unfolding master_run_job_to_completion
  master_run_job published o = elim o.on_start [
    | some e ↦ record {
      err = some (unable_to_start e);
      calls = start_job ∷ [];
      job_cancelled = true;
    }
    | none ↦ elim published [
      | some e ↦ record { err = some e; calls = start_job ∷ abort_job ∷ []; job_cancelled = true }
      | none ↦ finish_job o.is_canceled none (master_run_job_to_completion o)
    ]
  ]

  unfoldable pub worker_run_job : Outcomes E → Ended E
  unfolding worker_run_job_to_completion
  worker_run_job o = elim o.on_start [
    | some e ↦ record {
      err = some (unable_to_start e);
      calls = start_job ∷ [];
      job_cancelled = true;
    }
    | none ↦ finish_job o.is_canceled o.async_worker_err (worker_run_job_to_completion o)
  ]
