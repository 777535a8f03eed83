-- ===== src/Dbsp/WorkerPool.antt =====
-- dbspgraph/worker_pool.go: the pool of connected workers, as the events of its methods and of the
-- routines that watch the workers. A method that holds the mutex up to its return is one event, but for
-- ReserveWorkers, which waits for the routines while it holds it.
pub mod Stuck
pub mod Enough
mod Examples
use etherscan.Base.{
  ℕ, zero, suc, Bool, true, false, not, ◌&&◌, Option, none, some, List, [], ◌∷◌, ◌++◌, length, ltb,
  leb, ◌==◌, if◌then◌else◌,
}
use etherscan.Base.Events.{run_events}
use etherscan.Base.Text.{Text, text_eq}
use etherscan.Base.Map.{Map, has_key, values}

-- A routine monitorWorkerHealth: in its select, or in removeWorker before it has the mutex.

pub data Monitor : Type 0 where
  watching : Text → Monitor
  removing : Text → Monitor

-- ReserveWorkers: not called, before its check, in its select, waiting for the routines with the mutex,
-- or returned.
pub data Reserve (A : Type 0) : Type 0 where
  idle : Reserve A
  checking waiting stopping : ℕ → Reserve A
  reserved : ℕ → List A → Reserve A
  failed : Reserve A

-- `changed` says that poolMembersChangedCh is full, and `shut_down` that poolCtx is done. A routine has
-- returned when it is no longer among `monitors`.
pub record WorkerPool (A : Type 0) : Type 0 where
  pub connected_workers : Map Text A
  pub monitors : List Monitor
  pub changed : Bool
  pub shut_down : Bool
  pub reserve : Reserve A

-- A worker is added under a new ID; the routine of a place among `monitors` sees its worker disconnect,
-- removes it, sees the pool close, or is told to stop; Close ends the context, and clears the pool; ReserveWorkers is called, checks the number of
-- workers, is woken, returns an error, or returns the workers.
pub data Event (A : Type 0) : Type 0 where
  add : Text → A → Event A
  disconnect remove see_shutdown stop : ℕ → Event A
  close_pool clear_pool : Event A
  call_reserve : ℕ → Event A
  check wake give_up finish : Event A

-- What a routine does next: its return, or another place in its body; `none` if it cannot.
abbrev pub on_disconnect : Monitor → Option (List Monitor)
on_disconnect (watching id) = some (removing id ∷ [])
on_disconnect (removing id) = none

abbrev pub on_stop : Monitor → Option (List Monitor)
on_stop (watching id) = some []
on_stop (removing id) = none

unfoldable pub step_monitor :
    (Monitor → Option (List Monitor)) → ℕ → List Monitor → Option (List Monitor)
step_monitor f i [] = none
step_monitor f zero (m ∷ ms) = elim (f m) [ none ↦ none | some r ↦ some (r ++ ms) ]
step_monitor f (suc i) (m ∷ ms) = elim (step_monitor f i ms) [ none ↦ none | some r ↦ some (m ∷ r) ]

-- The routine in removeWorker at that place returns, with the ID of its worker.
unfoldable pub take_removing : ℕ → List Monitor → Option (Text × List Monitor)
take_removing i [] = none
take_removing zero (watching id ∷ ms) = none
take_removing zero (removing id ∷ ms) = some (id, ms)
take_removing (suc i) (m ∷ ms) = elim (take_removing i ms) [
  | none ↦ none
  | some (id, r) ↦ some (id, m ∷ r)
]

module _ {A : Type 0} where
  unfoldable pub new_worker_pool : WorkerPool A
  new_worker_pool = record {
    connected_workers = [];
    monitors = [];
    changed = false;
    shut_down = false;
    reserve = idle;
  }

  abbrev pub is_locked : Reserve A → Bool
  is_locked (stopping n) = true
  is_locked _ = false

  unfoldable pub delete : Text → Map Text A → Map Text A
  delete id [] = []
  delete id ((k, w) ∷ ws) = let rest = delete id ws in if k == id then rest else (k, w) ∷ rest

  -- AddWorker draws IDs until one is new: `id` is that one.
  unfoldable pub add_worker : Text → A → WorkerPool A → Option (WorkerPool A)
  add_worker id w p =
      if not (is_locked p.reserve) && not (has_key id p.connected_workers)
      then some (record p {
        connected_workers = (id, w) ∷ p.connected_workers;
        monitors = p.monitors ++ watching id ∷ [];
        changed = true;
      })
      else none

  abbrev pub with_monitors : WorkerPool A → Option (List Monitor) → Option (WorkerPool A)
  with_monitors p none = none
  with_monitors p (some ms) = some (record p { monitors = ms })

  abbrev pub with_removed : WorkerPool A → Option (Text × List Monitor) → Option (WorkerPool A)
  unfolding delete
  with_removed p none = none
  with_removed p (some (id, ms)) = some (record p {
    connected_workers = delete id p.connected_workers;
    monitors = ms;
    changed = true;
  })

  -- Close after it has waited for the routines.
  unfoldable pub clear : List Monitor → WorkerPool A → Option (WorkerPool A)
  clear [] p =
      if p.shut_down && not (is_locked p.reserve)
      then some (record p { connected_workers = [] })
      else none
  clear (m ∷ ms) p = none

  -- The loop of ReserveWorkers and what follows it.
  unfoldable pub reserve_workers : Event A → Reserve A → WorkerPool A → Option (WorkerPool A)
  reserve_workers (call_reserve min_workers) idle p =
      some (record p { reserve = checking min_workers })
  reserve_workers (call_reserve min_workers) (reserved n ws) p =
      some (record p { reserve = checking min_workers })
  reserve_workers (call_reserve min_workers) failed p =
      some (record p { reserve = checking min_workers })
  reserve_workers check (checking min_workers) p =
      if ltb 0 (length p.connected_workers) && leb min_workers (length p.connected_workers)
      then some (record p { reserve = stopping min_workers })
      else some (record p { reserve = waiting min_workers })
  reserve_workers wake (waiting min_workers) p =
      if p.changed
      then some (record p { changed = false; reserve = checking min_workers })
      else none
  reserve_workers give_up (waiting min_workers) p = some (record p { reserve = failed })
  reserve_workers finish (stopping min_workers) p = elim (p.monitors) [
    | [] ↦ some (record p {
      connected_workers = [];
      reserve = reserved min_workers (values p.connected_workers);
    })
    | m ∷ ms ↦ none
  ]
  reserve_workers e r p = none

  unfoldable pub fire : Event A → WorkerPool A → Option (WorkerPool A)
  unfolding add_worker step_monitor take_removing clear reserve_workers
  fire (add id w) p = add_worker id w p
  fire (disconnect i) p = with_monitors p (step_monitor on_disconnect i p.monitors)
  fire (remove i) p =
      if is_locked p.reserve then none else with_removed p (take_removing i p.monitors)
  fire (see_shutdown i) p =
      if p.shut_down then with_monitors p (step_monitor on_stop i p.monitors) else none
  fire (stop i) p =
      if is_locked p.reserve then with_monitors p (step_monitor on_stop i p.monitors) else none
  fire close_pool p = some (record p { shut_down = true })
  fire clear_pool p = clear p.monitors p
  fire e p = reserve_workers e p.reserve p

  unfoldable pub fire_all : List (Event A) → WorkerPool A → Option (WorkerPool A)
  unfolding fire run_events
  fire_all = run_events fire
