-- ===== src/Dbsp/WorkerPool/Examples.antt =====
-- dbspgraph/worker_pool.go: two runs of a pool.
use etherscan.Base.{ℕ, ◌<◌, ◌≤◌, ◌≡◌, refl, Option, none, some, List, [], ◌∷◌, arith, length}
use etherscan.Base.Text.{codes, text_eq, text_eqb}
use etherscan.Base.Map.{has_key, lookup, values}
use etherscan.Dbsp.WorkerPool.{
  with_removed, stopping, WorkerPool, Event, add, disconnect, remove, stop, call_reserve, check,
  finish, fire_all, new_worker_pool,
}
use etherscan.Dbsp.WorkerPool.Stuck.{count_removing, fire_all_never_returns}
use etherscan.Dbsp.WorkerPool.Enough.{fire_all_reserves}

abbrev or_new : Option (WorkerPool ℕ) → WorkerPool ℕ
or_new none = new_worker_pool
or_new (some p) = p

-- Of three workers one leaves, and the others are handed out to a caller that wants two.
abbrev reserving : List (Event ℕ)
reserving =
    add (codes "a") 1
    ∷ add (codes "b") 2
    ∷ call_reserve 2
    ∷ disconnect 0
    ∷ add (codes "c") 3
    ∷ remove 0
    ∷ check
    ∷ stop 1
    ∷ stop 0
    ∷ finish
    ∷ []

abbrev handed_out : WorkerPool ℕ
handed_out = or_new (fire_all reserving new_worker_pool)

handed_out-reached : fire_all reserving new_worker_pool ≡ some handed_out
unfolding fire_all new_worker_pool has_key lookup text_eqb with_removed
handed_out-reached = refl

abbrev two : List ℕ
two = 3 ∷ 2 ∷ []

fire_all_reserves_example : (0 < length two) × (2 ≤ length two)
unfolding fire_all new_worker_pool has_key lookup text_eqb with_removed values
fire_all_reserves_example = fire_all_reserves reserving handed_out 2 two handed_out-reached refl

-- The first worker leaves, and before it is removed the others are to be handed out.
abbrev locking : List (Event ℕ)
locking = add (codes "a") 1 ∷ add (codes "b") 2 ∷ disconnect 0 ∷ call_reserve 1 ∷ check ∷ []

abbrev locked : WorkerPool ℕ
locked = or_new (fire_all locking new_worker_pool)

locked-reached : fire_all locking new_worker_pool ≡ some locked
unfolding fire_all new_worker_pool has_key lookup text_eqb with_removed
locked-reached = refl

abbrev locked_later : WorkerPool ℕ
locked_later = or_new (fire_all (stop 1 ∷ []) locked)

fire_all_never_returns_example :
    (locked_later.reserve ≡ stopping 1) × (0 < count_removing locked_later.monitors)
unfolding fire_all new_worker_pool has_key lookup text_eqb with_removed
fire_all_never_returns_example =
    fire_all_never_returns 1 (stop 1 ∷ []) locked locked_later refl (omega arith) refl
