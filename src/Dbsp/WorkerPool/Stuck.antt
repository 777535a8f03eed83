-- ===== src/Dbsp/WorkerPool/Stuck.antt =====
-- dbspgraph/worker_pool.go: ReserveWorkers waits, with the mutex, for a routine that waits for the mutex.
use mathlib.Core.Path.{subst}
use etherscan.Base.{
  ℕ, zero, suc, ◌<◌, ◌≤◌, ◌≡◌, refl, sym, ap, Option, none, some, List, [], ◌∷◌, arith, true, false,
  if◌then◌else◌,
}
use etherscan.Base.Events.{Keeps, run_events-Keeps}
use etherscan.Dbsp.WorkerPool.{
  Monitor, watching, removing, stopping, WorkerPool, Event, add, disconnect, remove, see_shutdown,
  stop, close_pool, clear_pool, call_reserve, check, wake, give_up, finish, on_disconnect, on_stop,
  step_monitor, add_worker, with_monitors, clear, reserve_workers, fire, fire_all,
}

-- The routines that have seen their worker disconnect, and are to remove it.

abbrev pub count_removing : List Monitor → ℕ
count_removing [] = 0
count_removing (watching id ∷ ms) = count_removing ms
count_removing (removing id ∷ ms) = suc (count_removing ms)

abbrev AtLeast : ℕ → Option (List Monitor) → Type 0
AtLeast c none = Unit {0}
AtLeast c (some ms) = c ≤ count_removing ms

AtLeast-later :
    (m : Monitor) (ms : List Monitor) (r : Option (List Monitor))
    → AtLeast (count_removing ms) r
    → AtLeast (count_removing (m ∷ ms)) (elim r [ none ↦ none | some r' ↦ some (m ∷ r') ])
AtLeast-later m ms none h = tt
AtLeast-later (watching id) ms (some r) h = h
AtLeast-later (removing id) ms (some r) h = omega (arith, h)

AtLeast-disconnect :
    (i : ℕ) (ms : List Monitor) → AtLeast (count_removing ms) (step_monitor on_disconnect i ms)
unfolding step_monitor
AtLeast-disconnect i [] = tt
AtLeast-disconnect zero (watching id ∷ ms) = omega arith
AtLeast-disconnect zero (removing id ∷ ms) = tt
AtLeast-disconnect (suc i) (m ∷ ms) =
    AtLeast-later m ms (step_monitor on_disconnect i ms) (AtLeast-disconnect i ms)

AtLeast-stop : (i : ℕ) (ms : List Monitor) → AtLeast (count_removing ms) (step_monitor on_stop i ms)
unfolding step_monitor
AtLeast-stop i [] = tt
AtLeast-stop zero (watching id ∷ ms) = omega arith
AtLeast-stop zero (removing id ∷ ms) = tt
AtLeast-stop (suc i) (m ∷ ms) = AtLeast-later m ms (step_monitor on_stop i ms) (AtLeast-stop i ms)

module _ {A : Type 0} where
  -- ReserveWorkers holds the mutex for a call with the minimum `n`, and a routine waits for it.
  abbrev IsStuck : ℕ → Option (WorkerPool A) → Type 0
  IsStuck n = Keeps λ p. (p.reserve ≡ stopping n) × (0 < count_removing p.monitors)

  monitors-IsStuck :
      (n : ℕ) (p : WorkerPool A) (r : Option (List Monitor))
      → 0 < count_removing p.monitors
      → AtLeast (count_removing p.monitors) r
      → IsStuck n (with_monitors (record p { reserve = stopping n }) r)
  monitors-IsStuck n p none some_removing h = tt
  monitors-IsStuck n p (some ms) some_removing h = (refl, omega (arith, some_removing, h))

  finish-IsStuck :
      (n : ℕ) (p : WorkerPool A) (ms : List Monitor)
      → p.monitors ≡ ms
      → 0 < count_removing ms
      → IsStuck n (reserve_workers finish (stopping n) (record p { reserve = stopping n }))
  unfolding reserve_workers
  finish-IsStuck n p [] here h = absurd (omega (arith, h))
  finish-IsStuck n p (m ∷ ms) here h = rw (here, reserve_workers) tt

  clear-IsStuck :
      (n : ℕ) (p : WorkerPool A) (ms : List Monitor)
      → 0 < count_removing ms
      → IsStuck n (clear ms (record p { reserve = stopping n }))
  unfolding clear
  clear-IsStuck n p [] h = absurd (omega (arith, h))
  clear-IsStuck n p (m ∷ ms) h = tt

  fire_stopping-IsStuck :
      (n : ℕ) (e : Event A) (p : WorkerPool A)
      → 0 < count_removing p.monitors
      → IsStuck n (fire e (record p { reserve = stopping n }))
  unfolding fire add_worker reserve_workers
  fire_stopping-IsStuck n (add id w) p h = tt
  fire_stopping-IsStuck n (disconnect i) p h =
      monitors-IsStuck n p (step_monitor on_disconnect i p.monitors) h
        (AtLeast-disconnect i p.monitors)
  fire_stopping-IsStuck n (remove i) p h = tt
  fire_stopping-IsStuck n (see_shutdown i) p h =
      elim (p.shut_down)
        as (λ b. IsStuck n (
          if b
          then with_monitors (record p { reserve = stopping n }) (step_monitor on_stop i p.monitors)
          else none)) [
            | true ↦
                monitors-IsStuck n p (step_monitor on_stop i p.monitors) h
                  (AtLeast-stop i p.monitors)
            | false ↦ tt
          ]
  fire_stopping-IsStuck n (stop i) p h =
      monitors-IsStuck n p (step_monitor on_stop i p.monitors) h (AtLeast-stop i p.monitors)
  fire_stopping-IsStuck n close_pool p h = (refl, h)
  fire_stopping-IsStuck n clear_pool p h = clear-IsStuck n p p.monitors h
  fire_stopping-IsStuck n (call_reserve m) p h = tt
  fire_stopping-IsStuck n check p h = tt
  fire_stopping-IsStuck n wake p h = tt
  fire_stopping-IsStuck n give_up p h = tt
  fire_stopping-IsStuck n finish p h = finish-IsStuck n p p.monitors refl h

  fire-IsStuck :
      (n : ℕ) (e : Event A) (p : WorkerPool A)
      → (p.reserve ≡ stopping n) × (0 < count_removing p.monitors)
      → IsStuck n (fire e p)
  fire-IsStuck n e p (here, h) =
      let same : record p { reserve = stopping n } ≡ p =
        ap (λ r. record p { reserve = r }) (sym here) in
      subst (IsStuck n) (ap (fire e) same) (fire_stopping-IsStuck n e p h)

-- If a routine has seen its worker disconnect, and has not removed the worker when ReserveWorkers takes
-- the mutex to hand out the workers, then ReserveWorkers never returns: it still waits after any events.
pub fire_all_never_returns :
    {A : Type 0} (n : ℕ) (es : List (Event A)) (p p' : WorkerPool A)
    → p.reserve ≡ stopping n
    → 0 < count_removing p.monitors
    → fire_all es p ≡ some p'
    → (p'.reserve ≡ stopping n) × (0 < count_removing p'.monitors)
unfolding fire_all
fire_all_never_returns n es p p' locked waits run =
    run_events-Keeps fire (λ p. (p.reserve ≡ stopping n) × (0 < count_removing p.monitors)) es p p'
      (fire-IsStuck n) run (locked, waits)
