-- ===== src/Dbsp/Barrier.antt =====
-- dbspgraph/barrier.go: the barrier of the master for one type of step. The channels have no buffer, so
-- that a send and its receive are one event, and an episode of the barrier is a sequence of events:
-- WaitForWorkers takes the step of a worker in Wait, or NotifyWorkers hands the master's step to one.
pub mod Safety
pub mod Liveness
use etherscan.Base.{
  ℕ, zero, suc, ◌+◌, Bool, true, false, Option, none, some, List, [], ◌∷◌, ◌++◌, length, get_elem?,
  ltb, nat_eqb, if◌then◌else◌,
}
use etherscan.Base.Events.{run_events}

-- Where a worker is in Wait: before its send, between its send and its receive, or past both.
pub data Phase (S : Type 0) : Type 0 where
  outside waiting : Phase S
  returned : S → Phase S

-- `collected_steps` are the steps that WaitForWorkers has, `notified` counts the rounds of the loop of
-- NotifyWorkers, and `workers` has one phase for each of the workers.
pub record MasterStepBarrier (S : Type 0) : Type 0 where
  pub collected_steps : List S
  pub notified : ℕ
  pub workers : List (Phase S)

-- A worker joins with a step, or a worker is notified of the master's step.
pub data Event (S : Type 0) : Type 0 where
  join : ℕ → S → Event S
  notify : ℕ → Event S

module _ {S : Type 0} where
  abbrev pub outsiders : ℕ → List (Phase S)
  outsiders zero = []
  outsiders (suc n) = outside ∷ outsiders n

  unfoldable pub new_master_step_barrier : ℕ → MasterStepBarrier S
  new_master_step_barrier num_workers = record {
    collected_steps = [];
    notified = 0;
    workers = outsiders num_workers;
  }

  abbrev pub set_phase : ℕ → Phase S → List (Phase S) → List (Phase S)
  set_phase i p [] = []
  set_phase zero p (q ∷ qs) = p ∷ qs
  set_phase (suc i) p (q ∷ qs) = q ∷ set_phase i p qs

  abbrev pub is_outside : Option (Phase S) → Bool
  is_outside (some outside) = true
  is_outside _ = false

  abbrev pub is_waiting : Option (Phase S) → Bool
  is_waiting (some waiting) = true
  is_waiting _ = false

  -- One round of the loop of WaitForWorkers, with the worker's send; `none` if it cannot happen.
  unfoldable pub collect_step : ℕ → S → MasterStepBarrier S → Option (MasterStepBarrier S)
  collect_step i step b =
      if ltb (length b.collected_steps) (length b.workers)
      then (if is_outside (get_elem? b.workers i)
          then some (record b {
            collected_steps = b.collected_steps ++ step ∷ [];
            workers = set_phase i waiting b.workers;
          })
          else none)
      else none

  -- One round of the loop of NotifyWorkers, which starts when WaitForWorkers has returned.
  unfoldable pub notify_worker : S → ℕ → MasterStepBarrier S → Option (MasterStepBarrier S)
  notify_worker step i b =
      if ltb (length b.collected_steps) (length b.workers)
      then none
      else if ltb b.notified (length b.workers)
      then (if is_waiting (get_elem? b.workers i)
          then some (record b {
            notified = b.notified + 1;
            workers = set_phase i (returned step) b.workers;
          })
          else none)
      else none

  -- `answer` is what the master makes of the steps that it collected.
  unfoldable pub fire : (List S → S) → Event S → MasterStepBarrier S → Option (MasterStepBarrier S)
  unfolding collect_step notify_worker
  fire answer (join i step) b = collect_step i step b
  fire answer (notify i) b = notify_worker (answer b.collected_steps) i b

  unfoldable pub fire_all :
      (List S → S) → List (Event S) → MasterStepBarrier S → Option (MasterStepBarrier S)
  unfolding fire run_events
  fire_all answer = run_events (fire answer)
