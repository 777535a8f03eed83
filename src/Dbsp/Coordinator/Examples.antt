-- ===== src/Dbsp/Coordinator/Examples.antt =====
-- dbspgraph/: a job in which the results cannot be persisted.
use etherscan.Base.{ℕ, ◌≡◌, refl, false, none, some, [], ◌∷◌}
use etherscan.Dbsp.Coordinator.{
  Outcomes, start_job, complete_job, abort_job, master_run_job, worker_run_job,
}
use etherscan.Dbsp.Coordinator.Calls.{IsAccountedFor, run_job-IsAccountedFor}

abbrev not_persisted : Outcomes ℕ
not_persisted = record {
  on_start = none;
  on_run = none;
  on_complete = some 5;
  wait = λ t. none;
  notify = λ t. none;
  is_canceled = λ e. false;
  async_worker_err = none;
}

not_persisted-calls :
    (master_run_job none not_persisted).calls ≡ start_job ∷ complete_job ∷ abort_job ∷ []
unfolding master_run_job
not_persisted-calls = refl

run_job-IsAccountedFor_example :
    IsAccountedFor (master_run_job none not_persisted)
    × IsAccountedFor (worker_run_job not_persisted)
run_job-IsAccountedFor_example = run_job-IsAccountedFor none not_persisted
