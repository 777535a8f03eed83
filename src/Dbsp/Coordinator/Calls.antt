-- ===== src/Dbsp/Coordinator/Calls.antt =====
-- dbspgraph/: how the runner of a job is called, and what the workers are sent.
use mathlib.Core.Path.{subst}
use etherscan.Base.{
  ℕ, zero, suc, ◌+◌, ◌≡◌, refl, ◌∙◌, sym, ap, Bool, true, Option, none, some, List, [], ◌∷◌, ◌⊎◌,
  inl, inr, get_elem?, pos, arith,
}
use etherscan.Partition.Range.{Range, partition_extents}
use etherscan.Dbsp.Callbacks.{executed_graph, persisted_results, completed_job}
use etherscan.Dbsp.Coordinator.{
  Call, start_job, complete_job, abort_job, JobError, failed, job_aborted, unable_to_start,
  JobDetails, Outcomes, Ended, publish_job_details, publish_all, then_do, or_abort, with_call,
  master_run_job_to_completion, worker_run_job_to_completion, canceled_as_aborted, finish_job,
  master_run_job, worker_run_job,
}

module _ {E : Type 0} where
  -- After CompleteJob nothing more is asked of the runner; before it, it is asked once or not at all.
  abbrev IsQuiet : Option (JobError E) × List Call → Type 0
  IsQuiet r = (r ≡ (none, [])) ⊎ ((e : JobError E) × (r ≡ (some e, [])))

  abbrev CompletesOnce : Option (JobError E) × List Call → Type 0
  CompletesOnce r =
      (r ≡ (none, complete_job ∷ []))
      ⊎ ((e : JobError E) × (r ≡ (some e, [])))
      ⊎ ((e : JobError E) × (r ≡ (some e, complete_job ∷ [])))

  then_do-IsQuiet :
      (o : Option E) (r : Option (JobError E) × List Call) → IsQuiet r → IsQuiet (then_do o r)
  then_do-IsQuiet none r h = h
  then_do-IsQuiet (some e) r h = inr (failed e, refl)

  or_abort-IsQuiet :
      (o : Option E) (r : Option (JobError E) × List Call) → IsQuiet r → IsQuiet (or_abort o r)
  or_abort-IsQuiet none r h = h
  or_abort-IsQuiet (some e) r h = inr (job_aborted, refl)

  then_do-CompletesOnce :
      (o : Option E) (r : Option (JobError E) × List Call)
      → CompletesOnce r
      → CompletesOnce (then_do o r)
  then_do-CompletesOnce none r h = h
  then_do-CompletesOnce (some e) r h = inr (inl (failed e, refl))

  or_abort-CompletesOnce :
      (o : Option E) (r : Option (JobError E) × List Call)
      → CompletesOnce r
      → CompletesOnce (or_abort o r)
  or_abort-CompletesOnce none r h = h
  or_abort-CompletesOnce (some e) r h = inr (inl (job_aborted, refl))

  with_call-CompletesOnce :
      (r : Option (JobError E) × List Call) → IsQuiet r → CompletesOnce (with_call complete_job r)
  with_call-CompletesOnce r (inl h) = inl (ap (with_call complete_job) h)
  with_call-CompletesOnce r (inr (e, h)) = inr (inr (e, ap (with_call complete_job) h))

  master-CompletesOnce : (o : Outcomes E) → CompletesOnce (master_run_job_to_completion o)
  unfolding master_run_job_to_completion
  master-CompletesOnce o = then_do-CompletesOnce o.on_run _ (
      then_do-CompletesOnce (o.wait executed_graph) _ (
        then_do-CompletesOnce (o.notify executed_graph) _ (
          with_call-CompletesOnce _ (
            then_do-IsQuiet o.on_complete _ (
              then_do-IsQuiet (o.wait persisted_results) _ (
                then_do-IsQuiet (o.notify persisted_results) _
                  (then_do-IsQuiet (o.wait completed_job) _ (inl refl))))))))

  worker-CompletesOnce : (o : Outcomes E) → CompletesOnce (worker_run_job_to_completion o)
  unfolding worker_run_job_to_completion
  worker-CompletesOnce o = then_do-CompletesOnce o.on_run _ (
      or_abort-CompletesOnce (o.wait executed_graph) _ (
        with_call-CompletesOnce _ (
          then_do-IsQuiet o.on_complete _
            (or_abort-IsQuiet (o.wait persisted_results) _ (inl refl)))))

  -- A job that succeeds is started and completed, once each. One that fails is aborted once, at the end,
  -- but for one that was not started; at most once it is completed before.
  abbrev pub IsAccountedFor : Ended E → Type 0
  IsAccountedFor r =
      (r.job_cancelled ≡ true)
      × (((r.err ≡ none) × (r.calls ≡ start_job ∷ complete_job ∷ []))
          ⊎ ((e : E) × (r.err ≡ some (unable_to_start e)) × (r.calls ≡ start_job ∷ []))
          ⊎ ((e : JobError E) × (r.err ≡ some e)
              × ((r.calls ≡ start_job ∷ abort_job ∷ [])
                  ⊎ (r.calls ≡ start_job ∷ complete_job ∷ abort_job ∷ []))))

  finish_job-IsAccountedFor :
      (is_canceled : E → Bool) (async : Option E) (r : Option (JobError E) × List Call)
      → CompletesOnce r
      → IsAccountedFor (finish_job is_canceled async r)
  finish_job-IsAccountedFor is_canceled none r (inl h) =
      subst (λ x. IsAccountedFor (finish_job is_canceled none x)) (sym h) (refl, inl (refl, refl))
  finish_job-IsAccountedFor is_canceled (some a) r (inl h) =
      subst (λ x. IsAccountedFor (finish_job is_canceled (some a) x)) (sym h)
        (refl, inl (refl, refl))
  finish_job-IsAccountedFor is_canceled none r (inr (inl (e, h))) =
      subst (λ x. IsAccountedFor (finish_job is_canceled none x)) (sym h)
        (refl, inr (inr (canceled_as_aborted is_canceled e, refl, inl refl)))
  finish_job-IsAccountedFor is_canceled (some a) r (inr (inl (e, h))) =
      subst (λ x. IsAccountedFor (finish_job is_canceled (some a) x)) (sym h)
        (refl, inr (inr (failed a, refl, inl refl)))
  finish_job-IsAccountedFor is_canceled none r (inr (inr (e, h))) =
      subst (λ x. IsAccountedFor (finish_job is_canceled none x)) (sym h)
        (refl, inr (inr (canceled_as_aborted is_canceled e, refl, inr refl)))
  finish_job-IsAccountedFor is_canceled (some a) r (inr (inr (e, h))) =
      subst (λ x. IsAccountedFor (finish_job is_canceled (some a) x)) (sym h)
        (refl, inr (inr (failed a, refl, inr refl)))

  master-IsAccountedFor :
      (published : Option (JobError E)) (o : Outcomes E) (on_start : Option E)
      → o.on_start ≡ on_start
      → IsAccountedFor (master_run_job published o)
  unfolding master_run_job
  master-IsAccountedFor published o (some e) h =
      rw (h, master_run_job) (refl, inr (inl (e, refl, refl)))
  master-IsAccountedFor none o none h =
      rw (h, master_run_job)
        (finish_job-IsAccountedFor o.is_canceled none (master_run_job_to_completion o)
          (master-CompletesOnce o))
  master-IsAccountedFor (some e) o none h =
      rw (h, master_run_job) (refl, inr (inr (e, refl, inl refl)))

  worker-IsAccountedFor :
      (o : Outcomes E) (on_start : Option E)
      → o.on_start ≡ on_start
      → IsAccountedFor (worker_run_job o)
  unfolding worker_run_job
  worker-IsAccountedFor o (some e) h = rw (h, worker_run_job) (refl, inr (inl (e, refl, refl)))
  worker-IsAccountedFor o none h =
      rw (h, worker_run_job)
        (finish_job-IsAccountedFor o.is_canceled o.async_worker_err (worker_run_job_to_completion o)
          (worker-CompletesOnce o))

-- Whatever the runner, the graph, the barriers and the streams return, RunJob of the master and of a
-- worker cancels the context of the job; a job that succeeds is started and completed, once each, and
-- one that fails is aborted once, at the end, but for one that was not started.

pub run_job-IsAccountedFor :
    {E : Type 0} (published : Option (JobError E)) (o : Outcomes E)
    → IsAccountedFor (master_run_job published o) × IsAccountedFor (worker_run_job o)
run_job-IsAccountedFor published o =
    (master-IsAccountedFor published o o.on_start refl, worker-IsAccountedFor o o.on_start refl)

module _ {E Time Stamp : Type 0} (timestamp_proto : Time → Stamp ⊎ E) where
  publish_job_details-extents :
      (d : JobDetails Time) (r : Range) (i : ℕ) (j : JobDetails Stamp)
      → publish_job_details {E = E} timestamp_proto d r i ≡ inl j
      → partition_extents (pos i) r ≡ ((j.partition_from_addr, j.partition_to_addr), none)
  unfolding publish_job_details
  publish_job_details-extents d r i j h = ground (arith, h)

  publish_all-inversion :
      (d : JobDetails Time) (r : Range) (i left : ℕ) (sent : List (JobDetails Stamp))
      (first : JobDetails Stamp ⊎ JobError E)
      → publish_job_details timestamp_proto d r i ≡ first
      → publish_all timestamp_proto d r i (suc left) ≡ (none, sent)
      → (j : JobDetails Stamp) × (rest : List (JobDetails Stamp)) × (publish_job_details
            timestamp_proto d r i
          ≡ inl j)
        × (publish_all timestamp_proto d r (suc i) left ≡ (none, rest))
        × (sent ≡ j ∷ rest)
  unfolding publish_all
  publish_all-inversion d r i left sent (inr e) here h = absurd (ground (arith, here, h))
  publish_all-inversion d r i left sent (inl j) here h = (
    j,
    (publish_all timestamp_proto d r (suc i) left).1,
    here,
    ground (arith, here, h),
    ground (arith, here, h),
  )

  -- If the details are published without an error, then as many are sent as there are workers, and the
  -- `k`-th of them has the extents of the partition that the worker has.
  publish_all-extents :
      (d : JobDetails Time) (r : Range) (i left : ℕ) (sent : List (JobDetails Stamp)) (k : ℕ)
      (j : JobDetails Stamp)
      → publish_all {E = E} timestamp_proto d r i left ≡ (none, sent)
      → get_elem? sent k ≡ some j
      → partition_extents (pos (i + k)) r ≡ ((j.partition_from_addr, j.partition_to_addr), none)
  unfolding publish_all
  publish_all-extents d r i zero sent k j h found = absurd (ground (arith, h, found))
  publish_all-extents d r i (suc left) sent zero j h found =
      let (j', rest, first, more, split) =
        publish_all-inversion d r i left sent (publish_job_details timestamp_proto d r i) refl h in
      let same : j' ≡ j = ground (arith, split, found) in
      let here : partition_extents (pos i) r
          ≡ ((j.partition_from_addr, j.partition_to_addr), none) =
        publish_job_details-extents d r i j (first ∙ ap inl same) in
      subst
        (λ n. partition_extents (pos n) r ≡ ((j.partition_from_addr, j.partition_to_addr), none))
        (omega arith) here
  publish_all-extents d r i (suc left) sent (suc k) j h found =
      let (j', rest, first, more, split) =
        publish_all-inversion d r i left sent (publish_job_details timestamp_proto d r i) refl h in
      let later : get_elem? rest k ≡ some j = ground (arith, split, found) in
      subst
        (λ n. partition_extents (pos n) r ≡ ((j.partition_from_addr, j.partition_to_addr), none))
        (omega arith) (publish_all-extents d r (suc i) left rest k j more later)
