-- ===== src/Dbsp/WorkerPool/Enough.antt =====
-- dbspgraph/worker_pool.go: ReserveWorkers returns as many workers as it was asked for.
use mathlib.Core.Path.{subst}
use etherscan.Base.{
  ℕ, suc, ◌<◌, ◌≤◌, ◌≡◌, refl, ap, Option, none, some, List, [], ◌∷◌, arith, Bool, true, false,
  if◌then◌else◌, not, ◌&&◌, length, ltb, leb,
}
use etherscan.Base.Events.{Keeps, if-Keeps, run_events-Keeps}
use etherscan.Base.Text.{Text, text_eq}
use etherscan.Base.Map.{Map, values, has_key}
use etherscan.Dbsp.WorkerPool.{
  Monitor, Reserve, idle, checking, waiting, stopping, reserved, failed, WorkerPool, Event, add,
  disconnect, remove, see_shutdown, stop, close_pool, clear_pool, call_reserve, check, wake,
  give_up, finish, on_disconnect, on_stop, take_removing, with_removed, is_locked, step_monitor,
  add_worker, with_monitors, clear, reserve_workers, fire, fire_all, new_worker_pool,
}

module _ {A : Type 0} where
  length-values : (m : Map Text A) → length (values m) ≡ length m
  unfolding values
  length-values [] = refl
  length-values ((k, v) ∷ m) = ap suc (length-values m)

  -- While ReserveWorkers holds the mutex, and in what it returns, there are enough workers.
  abbrev Enough : Reserve A → Map Text A → Type 0
  Enough (stopping n) ws = (0 < length ws) × (n ≤ length ws)
  Enough (reserved n ws) m = (0 < length ws) × (n ≤ length ws)
  Enough idle ws = Unit {0}
  Enough (checking n) ws = Unit {0}
  Enough (waiting n) ws = Unit {0}
  Enough failed ws = Unit {0}

  abbrev HasEnough : WorkerPool A → Type 0
  HasEnough p = Enough p.reserve p.connected_workers

  -- Who has not the mutex may change the workers.
  Enough-unlocked :
      (r : Reserve A) (ws ws' : Map Text A) → is_locked r ≡ false → Enough r ws → Enough r ws'
  Enough-unlocked (stopping n) ws ws' free h = cc
  Enough-unlocked (reserved n vs) ws ws' free h = h
  Enough-unlocked idle ws ws' free h = tt
  Enough-unlocked (checking n) ws ws' free h = tt
  Enough-unlocked (waiting n) ws ws' free h = tt
  Enough-unlocked failed ws ws' free h = tt

  monitors-HasEnough :
      (p : WorkerPool A) (r : Option (List Monitor))
      → HasEnough p
      → Keeps HasEnough (with_monitors p r)
  monitors-HasEnough p none h = tt
  monitors-HasEnough p (some ms) h = h

  removed-HasEnough :
      (p : WorkerPool A) (r : Option (Text × List Monitor))
      → is_locked p.reserve ≡ false
      → HasEnough p
      → Keeps HasEnough (with_removed p r)
  unfolding with_removed
  removed-HasEnough p none free h = tt
  removed-HasEnough p (some (id, ms)) free h =
      Enough-unlocked p.reserve p.connected_workers _ free h

  remove-HasEnough :
      (p : WorkerPool A) (b : Bool) (r : Option (Text × List Monitor))
      → is_locked p.reserve ≡ b
      → HasEnough p
      → Keeps HasEnough (if b then none else with_removed p r)
  remove-HasEnough p true r e h = tt
  remove-HasEnough p false r e h = removed-HasEnough p r e h

  clear-HasEnough :
      (ms : List Monitor) (p : WorkerPool A) → HasEnough p → Keeps HasEnough (clear ms p)
  unfolding clear
  clear-HasEnough [] p h =
      if-Keeps HasEnough (p.shut_down && not (is_locked p.reserve)) _
        λ free. Enough-unlocked p.reserve p.connected_workers [] (ground (arith, free)) h
  clear-HasEnough (m ∷ ms) p h = tt

  check-HasEnough :
      (n : ℕ) (p : WorkerPool A) (b : Bool)
      → (b ≡ true → (0 < length p.connected_workers) × (n ≤ length p.connected_workers))
      → Keeps HasEnough (
          if b
          then some (record p { reserve = stopping n })
          else some (record p { reserve = waiting n }))
  check-HasEnough n p true h = h refl
  check-HasEnough n p false h = tt

  finish-HasEnough :
      (n : ℕ) (p : WorkerPool A) (ms : List Monitor)
      → (0 < length p.connected_workers) × (n ≤ length p.connected_workers)
      → Keeps HasEnough (elim ms [
        | [] ↦
            some (record p {
              connected_workers = [];
              reserve = reserved n (values p.connected_workers);
            })
        | m ∷ ms ↦ none
      ])
  finish-HasEnough n p [] (a, b) = (
    omega (arith, a, length-values p.connected_workers),
    omega (arith, b, length-values p.connected_workers),
  )
  finish-HasEnough n p (m ∷ ms) h = tt

  reserve-HasEnough :
      (e : Event A) (r : Reserve A) (p : WorkerPool A)
      → Enough r p.connected_workers
      → Keeps HasEnough (reserve_workers e r p)
  unfolding reserve_workers
  reserve-HasEnough (call_reserve n) idle p h = tt
  reserve-HasEnough (call_reserve n) (reserved m ws) p h = tt
  reserve-HasEnough (call_reserve n) failed p h = tt
  reserve-HasEnough check (checking n) p h =
      check-HasEnough n p (ltb 0 (length p.connected_workers) && leb n (length p.connected_workers))
        (λ e. ground (arith, e))
  reserve-HasEnough wake (waiting n) p h = if-Keeps HasEnough p.changed _ (λ _. tt)
  reserve-HasEnough give_up (waiting n) p h = tt
  reserve-HasEnough finish (stopping n) p h = finish-HasEnough n p p.monitors h
  reserve-HasEnough e r p h = tt

  fire-HasEnough : (e : Event A) (p : WorkerPool A) → HasEnough p → Keeps HasEnough (fire e p)
  unfolding fire add_worker
  fire-HasEnough (add id w) p h =
      if-Keeps HasEnough (not (is_locked p.reserve) && not (has_key id p.connected_workers)) _
        λ free. Enough-unlocked p.reserve p.connected_workers _ (ground (arith, free)) h
  fire-HasEnough (disconnect i) p h =
      monitors-HasEnough p (step_monitor on_disconnect i p.monitors) h
  fire-HasEnough (remove i) p h =
      remove-HasEnough p (is_locked p.reserve) (take_removing i p.monitors) refl h
  fire-HasEnough (see_shutdown i) p h =
      if-Keeps HasEnough p.shut_down _
        (λ _. monitors-HasEnough p (step_monitor on_stop i p.monitors) h)
  fire-HasEnough (stop i) p h =
      if-Keeps HasEnough (is_locked p.reserve) _
        (λ _. monitors-HasEnough p (step_monitor on_stop i p.monitors) h)
  fire-HasEnough close_pool p h = h
  fire-HasEnough clear_pool p h = clear-HasEnough p.monitors p h
  fire-HasEnough (call_reserve n) p h = reserve-HasEnough (call_reserve n) p.reserve p h
  fire-HasEnough check p h = reserve-HasEnough check p.reserve p h
  fire-HasEnough wake p h = reserve-HasEnough wake p.reserve p h
  fire-HasEnough give_up p h = reserve-HasEnough give_up p.reserve p h
  fire-HasEnough finish p h = reserve-HasEnough finish p.reserve p h

-- Whatever the workers and the other callers of the pool do, if ReserveWorkers returns workers, then it
-- returns at least one, and at least as many as it was asked for.

pub fire_all_reserves :
    {A : Type 0} (es : List (Event A)) (p : WorkerPool A) (n : ℕ) (ws : List A)
    → fire_all es new_worker_pool ≡ some p
    → p.reserve ≡ reserved n ws
    → (0 < length ws) × (n ≤ length ws)
unfolding new_worker_pool fire_all
fire_all_reserves es p n ws run done =
    subst (λ r. Enough r p.connected_workers) done
      (run_events-Keeps fire HasEnough es new_worker_pool p fire-HasEnough run tt)
