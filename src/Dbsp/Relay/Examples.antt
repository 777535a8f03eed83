-- ===== src/Dbsp/Relay/Examples.antt =====
-- dbspgraph/: a job of two workers, in which the first relays a message to the second.
use etherscan.Base.{map, ℕ, suc, ◌≤◌, ◌≡◌, refl, Option, none, some, List, [], ◌∷◌, All, arith}
use etherscan.Base.Text.{codes, text_ltb}
use etherscan.Partition.Range.{Range, partition_for_addr}
use etherscan.Rpc.Streams.{ok}
use etherscan.Dbsp.Barrier.{collect_step, new_master_step_barrier, notify_worker}
use etherscan.Dbsp.Relay.{
  MessageSerializer, Job, Event, relay, enter, handle, notify, answer, receive, fire_all, new_job,
}
use etherscan.Dbsp.Relay.Links.{IsTimely}
use etherscan.Dbsp.Relay.Timely.{fire_all-IsTimely}

abbrev halves : Range
halves = record { start = codes "0"; range_splits = codes "8" ∷ codes "f" ∷ [] }

abbrev plain : MessageSerializer ℕ ℕ ℕ
plain = record { serialize = λ m. ok m; unserialize = λ w. ok w }

abbrev master_step : List ℕ → ℕ
master_step steps = 1

-- The first worker leaves the barrier before the second, and its message comes after the step.
abbrev events : List (Event ℕ ℕ)
events =
    enter 0 1
    ∷ enter 1 1
    ∷ handle 1
    ∷ handle 0
    ∷ notify 0
    ∷ answer 0
    ∷ receive 0
    ∷ relay 0 (codes "9") 5
    ∷ notify 1
    ∷ handle 0
    ∷ answer 1
    ∷ receive 1
    ∷ receive 1
    ∷ []

abbrev or_new : Option (Job ℕ ℕ ℕ) → Job ℕ ℕ ℕ
or_new none = new_job 2 halves
or_new (some job) = job

abbrev last : Job ℕ ℕ ℕ
last = or_new (fire_all plain master_step events (new_job 2 halves))

last-reached : fire_all plain master_step events (new_job 2 halves) ≡ some last
unfolding fire_all new_job partition_for_addr collect_step new_master_step_barrier notify_worker
    text_ltb
last-reached = refl

-- Both have passed the barrier, and the message has arrived.
last-passed :
    ((last.links 0).passed ≡ 1)
    × ((last.links 1).passed ≡ 1)
    × (map (λ d. d.message) (last.links 1).delivered ≡ 5 ∷ [])
unfolding fire_all new_job partition_for_addr collect_step new_master_step_barrier notify_worker
    text_ltb
last-passed = (refl, refl, refl)

fire_all-IsTimely_example :
    All (IsTimely last.part_range 1) (last.links 1).delivered
    × ((last.links 1).passed ≤ suc last.episode)
unfolding fire_all new_job partition_for_addr collect_step new_master_step_barrier notify_worker
    text_ltb
fire_all-IsTimely_example =
    fire_all-IsTimely plain master_step 2 halves events last 1 last-reached (omega arith)
