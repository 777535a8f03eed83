-- ===== src/Dbsp/Examples.antt =====
-- dbspgraph/: runs at concrete inputs.
use etherscan.Base.{
  true, false, Bool, Option, All, ap, nat_eqb, if◌then◌else◌, Bool-cases, inl, inr, ltb, none, ℕ,
  ◌*◌, ◌≤◌, ◌≡◌, ◌⊎◌, refl, some, List, [], ◌∷◌, length, arith,
}
use etherscan.Base.Text.{Text, text_eq, text_eqb}
use etherscan.Base.Map.{Map, keys, lookup, has_key, alter}
use etherscan.Base.Member.{member}
use etherscan.Aggregator.Int.{IntAccumulator, get, delta, aggregate}
use etherscan.Rpc.Streams.{Result, ok, error}
use etherscan.Bsp.Graph.{Graph}
use etherscan.Bsp.Executor.{ExecutorCallbacks, or_post_step_keep_running}
use etherscan.Dbsp.Aggregators.{
  Serializer, merge_steps, serialize_aggregator_values, merge_worker_aggregator_deltas,
  apply_values,
}
use etherscan.Dbsp.Callbacks.{
  Step, StepType, pre, executed_graph, persisted_results, completed_job, MasterBarrier, post,
  post_keep_running, empty_step, add_active, master_answer, take_answer,
  master_post_step_keep_running, worker_post_step_keep_running,
}
use etherscan.Dbsp.Callbacks.Rounds.{take_answer-master_answer}
use etherscan.Dbsp.Callbacks.Active.{AtBarrier, worker_callback, keep_running_agrees}
use etherscan.Dbsp.Barrier.{
  waiting, returned, MasterStepBarrier, Event, join, notify, new_master_step_barrier, fire,
  fire_all,
}
use etherscan.Dbsp.Barrier.Safety.{count_outside, count_returned, fire_all_together}
use etherscan.Dbsp.Barrier.Liveness.{fire_all_live}

-- The master answers with the first step.

abbrev first : List ℕ → ℕ
first [] = 0
first (s ∷ ss) = s

-- Two workers join, and one of them has been notified.
abbrev events : List (Event ℕ)
events = join 1 7 ∷ join 0 9 ∷ notify 1 ∷ []

abbrev one_left : MasterStepBarrier ℕ
one_left = record {
  collected_steps = 7 ∷ 9 ∷ [];
  notified = 1;
  workers = waiting ∷ returned 7 ∷ [];
}

events-one_left : fire_all first events (new_master_step_barrier 2) ≡ some one_left
unfolding fire_all new_master_step_barrier
events-one_left = refl

fire_all_together_example :
    (count_outside one_left.workers ≡ 0)
    × (length one_left.collected_steps ≡ 2)
    × (count_returned one_left.workers ≡ one_left.notified)
fire_all_together_example = fire_all_together first 2 events one_left events-one_left (omega arith)

fire_all_live_example :
    (length events ≤ 2 * 2)
    × ((count_returned one_left.workers ≡ 2)
        ⊎ ((e : Event ℕ) × (b' : MasterStepBarrier ℕ) × (fire first e one_left ≡ some b')))
fire_all_live_example = fire_all_live first 5 2 events one_left events-one_left

-- Numbers go over the wire as they are.
abbrev plain : Serializer ℕ ℕ
plain = record { serialize = λ v. ok v; unserialize = λ w. ok w }

plain-reads : (v w : ℕ) → plain.serialize v ≡ ok w → plain.unserialize w ≡ ok v
plain-reads v w h = ground (arith, h)

abbrev aggregators : ℕ → ℕ → Map Text IntAccumulator
aggregators prev cur = (1 ∷ [], record { prev_sum = prev; cur_sum = cur }) ∷ []

abbrev two_workers : List (Map Text IntAccumulator)
two_workers = aggregators 5 8 ∷ aggregators 5 7 ∷ []

-- Numbers that the workers have aggregated, 3 and 2 on top of the shared 5.
abbrev step_of : ℕ → Step ℕ
step_of v = record { step_type = post; aggregator_values = (1 ∷ [], v) ∷ []; active_in_step = 0 }

abbrev graph_with : Map Text IntAccumulator → Graph ℕ ℕ IntAccumulator
graph_with ags = record {
  superstep = 0;
  aggregators = ags;
  vertices = [];
  relayer = none;
  active_in_step = 0;
  pending_in_step = 0;
}

take_answer-master_answer_example :
    ((take_answer plain (step_of 10) (graph_with (aggregators 8 8))).0 ≡ none)
    × ((a' : IntAccumulator) × (b' : IntAccumulator) × (lookup (1 ∷ []) (aggregators 5 10)
          ≡ some a')
        × (lookup
              (1 ∷ [])
              (take_answer plain (step_of 10) (graph_with (aggregators 8 8))).1.aggregators
            ≡ some b')
        × (get a' ≡ 10)
        × (get b' ≡ get a')
        × ((delta b').0 ≡ 0))
unfolding master_answer get delta keys member lookup has_key text_eqb serialize_aggregator_values
    merge_steps merge_worker_aggregator_deltas apply_values aggregate alter
take_answer-master_answer_example =
    take_answer-master_answer plain plain-reads (step_of 3 ∷ step_of 2 ∷ []) two_workers
      (graph_with (aggregators 5 5)) (graph_with (aggregators 5 10)) (graph_with (aggregators 8 8))
      (step_of 10) (1 ∷ []) (record { prev_sum = 5; cur_sum = 5 })
      (record { prev_sum = 8; cur_sum = 8 }) (refl, (refl, tt))
      (((refl, tt), (refl, tt)), (((refl, tt), (refl, tt)), tt)) (refl, tt) (refl, tt) refl refl
      (omega arith) refl

-- A user's callback that goes on while any vertex is active.
abbrev while_active : ExecutorCallbacks ℕ ℕ IntAccumulator
while_active = record {
  pre_step = none;
  post_step = none;
  post_step_keep_running = some (λ g active. ((ltb 0 active, none), g));
}

abbrev nothing : Graph ℕ ℕ IntAccumulator
nothing = graph_with []

-- A step that says how many vertices are active, and what a barrier gives for that step alone.
abbrev active_step : ℕ → Step ℕ
active_step n = record (empty_step post_keep_running) { active_in_step = n }

abbrev is_step : ℕ → StepType → Map Text ℕ → ℕ → Bool
is_step n post_keep_running [] m = nat_eqb m n
is_step n _ _ m = false

is_step-active_step :
    (n : ℕ) (t : StepType) (ws : Map Text ℕ) (m : ℕ)
    → is_step n t ws m ≡ true
    → record { step_type = t; aggregator_values = ws; active_in_step = m } ≡ active_step n
is_step-active_step n post_keep_running [] m h = ap active_step (ground (arith, h))
is_step-active_step n post_keep_running (w ∷ ws) m h = cc
is_step-active_step n pre ws m h = cc
is_step-active_step n post ws m h = cc
is_step-active_step n executed_graph ws m h = cc
is_step-active_step n persisted_results ws m h = cc
is_step-active_step n completed_job ws m h = cc

abbrev accept : {X : Type 0} → ℕ → X → Step ℕ → Result ℕ X
accept n x s = if is_step n s.step_type s.aggregator_values s.active_in_step then ok x else error 1

accept-active_step :
    {X : Type 0} (n : ℕ) (x r : X) (s : Step ℕ)
    → accept n x s ≡ ok r
    → (s ≡ active_step n) × (r ≡ x)
accept-active_step n x r s h =
    elim (Bool-cases (is_step n s.step_type s.aggregator_values s.active_in_step)) [
      | inl same ↦ (
        is_step-active_step n s.step_type s.aggregator_values s.active_in_step same,
        ground (arith, h, same),
      )
      | inr other ↦ ground (arith, h, other)
    ]

-- One worker has four active vertices, the other none, and the master's own graph two.
abbrev worker_with : ℕ → AtBarrier ℕ ℕ ℕ ℕ
worker_with n = record {
  wait = accept n (active_step 6);
  orig = while_active;
  graph = nothing;
  active_in_step = n;
  sent = active_step n;
}

abbrev told : Result ℕ ℕ → Option ℕ
told (ok x) = none
told (error e) = some e

abbrev barrier : MasterBarrier ℕ ℕ
barrier = record {
  wait_for_workers = λ t. ok (active_step 4 ∷ active_step 0 ∷ []);
  notify_workers = λ s. told (accept 6 0 s);
}

notify_workers-active_step :
    (s : Step ℕ) (r : Result ℕ ℕ) → accept 6 0 s ≡ r → told r ≡ none → s ≡ active_step 6
notify_workers-active_step s (ok x) h fine = (accept-active_step 6 0 x s h).0
notify_workers-active_step s (error e) h fine = cc

keep_running_agrees_example :
    (master_post_step_keep_running {E = ℕ} barrier while_active nothing 2 ≡ ((true, none), nothing))
    × All (λ w. worker_callback ℕ w ≡ ((true, none), nothing)) (worker_with 4 ∷ worker_with 0 ∷ [])
unfolding or_post_step_keep_running master_post_step_keep_running worker_post_step_keep_running
    add_active
keep_running_agrees_example =
    keep_running_agrees ℕ (active_step 6) barrier (worker_with 4 ∷ worker_with 0 ∷ []) 2
      while_active nothing (omega arith) refl
      (λ s h. notify_workers-active_step s (accept 6 0 s) refl h)
      (
        (λ s r h. accept-active_step 4 (active_step 6) r s h),
        ((λ s r h. accept-active_step 0 (active_step 6) r s h), tt),
      )
      refl (refl, (refl, tt))
