-- ===== src/Dbsp/Relay.antt =====
-- dbspgraph/master_job_coordinator.go, worker_job_coordinator.go: messages that a graph relays to another
-- worker, through the master, and the barriers that the workers enter over the same streams. A stream
-- is a queue of payloads in each direction; a run is a sequence of events.
pub mod Numbering
pub mod Links
pub mod Moves
pub mod Returns
pub mod Jobs
pub mod Answers
pub mod Timely
mod Examples
use etherscan.Base.{
  ℕ, zero, suc, ◌+◌, ◌%◌, Bool, true, false, not, ◌&&◌, Option, none, some, List, [], ◌∷◌, ◌++◌,
  length, ltb, nat_eqb, if◌then◌else◌, ℤ, pos, negsuc,
}
use etherscan.Base.Events.{run_events}
use etherscan.Base.Text.{Text}
use etherscan.Partition.Range.{Range, Error, partition_for_addr}
use etherscan.Rpc.Streams.{Result, ok, error}
use etherscan.Dbsp.Barrier.{MasterStepBarrier, new_master_step_barrier, collect_step, notify_worker}

-- The user's Serializer, for messages `M` that are `W` on the stream.
pub record MessageSerializer (M W E : Type 0) : Type 0 where
  pub serialize : M → Result E W
  pub unserialize : W → Result E M

-- `sent_in` is not in the program: it is the number of barriers that the sender had passed.
pub record RelayMessage (W : Type 0) : Type 0 where
  pub destination : Text
  pub message : W
  pub sent_in : ℕ

-- The messages with a job's details come before all of these.
pub data Payload (W S : Type 0) : Type 0 where
  relay_message : RelayMessage W → Payload W S
  step : S → Payload W S

-- Where handleWorkerPayloads is: at its receive, in Wait, or past it with the step to send back.
pub data Handler (S : Type 0) : Type 0 where
  receiving entered : Handler S
  answering : S → Handler S

-- A message that reached the graph of a worker, and how many barriers the worker had passed then.
pub record Delivery (M W : Type 0) : Type 0 where
  pub relayed : RelayMessage W
  pub message : M
  pub at : ℕ

-- A worker with its stream: `to_master` and `to_worker` are the payloads under way, `blocked` says that
-- the worker is in Wait, and `passed` counts the barriers that it has left.
pub record Link (M W S : Type 0) : Type 0 where
  pub to_master : List (Payload W S)
  pub handler : Handler S
  pub to_worker : List (Payload W S)
  pub blocked : Bool
  pub passed : ℕ
  pub delivered : List (Delivery M W)

-- `episode` counts the barriers that the master is done with, and `barrier` is the one it is at.
pub record Job (M W S : Type 0) : Type 0 where
  pub num_workers : ℕ
  pub part_range : Range
  pub links : ℕ → Link M W S
  pub barrier : MasterStepBarrier S
  pub episode : ℕ
  pub cancelled : Bool

-- A worker relays a message or enters a barrier; the master handles a payload of a worker, notifies a
-- worker, sends the answer, or goes on to the next barrier; a worker receives a payload.
pub data Event (M S : Type 0) : Type 0 where
  relay : ℕ → Text → M → Event M S
  enter : ℕ → S → Event M S
  handle notify answer : ℕ → Event M S
  next_barrier : Event M S
  receive : ℕ → Event M S

abbrev pub worker_of : {M S : Type 0} → Event M S → ℕ
worker_of (relay i dst msg) = i
worker_of (enter i s) = i
worker_of (handle i) = i
worker_of (notify i) = i
worker_of (answer i) = i
worker_of next_barrier = 0
worker_of (receive i) = i

abbrev pub update : {A : Type 0} → ℕ → A → (ℕ → A) → ℕ → A
update i x f j = if nat_eqb i j then x else f j

module _ {M W S : Type 0} where
  abbrev pub set_link : ℕ → Link M W S → Job M W S → Job M W S
  set_link i l job = record job { links = update i l job.links }

  -- Wait of the worker's barrier, up to its receive.
  unfoldable pub enter_barrier : S → Link M W S → Option (Link M W S)
  enter_barrier s l =
      if l.blocked
      then none
      else some (record l { to_master = l.to_master ++ step s ∷ []; blocked = true })

  unfoldable pub send_to_worker : Payload W S → Link M W S → Link M W S
  send_to_worker p l = record l { to_worker = l.to_worker ++ p ∷ [] }

  -- relayMessageToWorker, with what PartitionForAddr gives. An index out of range panics, which does not
  -- happen with a range of as many partitions as workers.
  unfoldable pub forward : ℕ → RelayMessage W → ℤ × Option Error → Job M W S → Option (Job M W S)
  unfolding send_to_worker
  forward src m (part_index, some e) job = some (record job { cancelled = true })
  forward src m (negsuc k, none) job = none
  forward src m (pos k, none) job =
      if nat_eqb k src
      then some (record job { cancelled = true })
      else if ltb k job.num_workers
      then some (set_link k (send_to_worker (relay_message m) (job.links k)) job)
      else none

  abbrev pub with_barrier :
      ℕ → Link M W S → Option (MasterStepBarrier S) → Job M W S → Option (Job M W S)
  with_barrier i l none job = none
  with_barrier i l (some b) job = some (set_link i l (record job { barrier = b }))

  -- handleWorkerPayloads takes the first payload of worker `i`; a step enters the master's barrier.
  unfoldable pub handle_payload :
      ℕ → List (Payload W S) → Handler S → Job M W S → Option (Job M W S)
  unfolding forward
  handle_payload i (relay_message m ∷ q) receiving job =
      forward i m (partition_for_addr m.destination job.part_range)
        (set_link i (record (job.links i) { to_master = q }) job)
  handle_payload i (step s ∷ q) receiving job =
      with_barrier i (record (job.links i) { to_master = q; handler = entered })
        (collect_step i s job.barrier) job
  handle_payload i _ _ job = none

  -- NotifyWorkers hands its step to a handler that is in Wait.
  unfoldable pub notify_handler : ℕ → S → Job M W S → Option (Job M W S)
  notify_handler i s job =
      with_barrier i (record (job.links i) { handler = answering s })
        (notify_worker s i job.barrier) job

  unfoldable pub send_answer : ℕ → Handler S → Job M W S → Option (Job M W S)
  unfolding send_to_worker
  send_answer i (answering s) job =
      some (set_link i (record (send_to_worker (step s) (job.links i)) { handler = receiving }) job)
  send_answer i _ job = none

  abbrev pub with_link : ℕ → Option (Link M W S) → Job M W S → Option (Job M W S)
  with_link i none job = none
  with_link i (some l) job = some (set_link i l job)

module _ {M W S E : Type 0} (serializer : MessageSerializer M W E) where
  -- A compute function runs after the first barrier of its superstep, PRE, and before the second. An
  -- error of the serializer goes to the compute function, and nothing is sent.
  unfoldable pub relay_non_local_message : ℕ → Text → M → Link M W S → Option (Link M W S)
  relay_non_local_message i dst msg l =
      if not l.blocked && nat_eqb (l.passed % 3) 1
      then elim (serializer.serialize msg) [
        | error e ↦ some l
        | ok w ↦ some (record l {
          to_master =
              l.to_master
              ++ relay_message (record { destination = dst; message = w; sent_in = l.passed }) ∷ [];
        })
      ]
      else none

  -- deliverGraphMessage, whose failure cancels the job, and Notify of the worker's barrier. Every message
  -- that can be read counts as delivered: that SendMessage of the graph finds its vertex is left out.
  unfoldable pub receive_payload : ℕ → List (Payload W S) → Job M W S → Option (Job M W S)
  receive_payload i [] job = none
  receive_payload i (relay_message m ∷ q) job = elim (serializer.unserialize m.message) [
    | error e ↦ some (record job { cancelled = true })
    | ok msg ↦ some (
        set_link i
          (record (job.links i) {
            to_worker = q;
            delivered =
                record { relayed = m; message = msg; at = (job.links i).passed }
                ∷ (job.links i).delivered;
          })
          job)
  ]
  receive_payload i (step s ∷ q) job =
      if (job.links i).blocked
      then some (
          set_link i
            (record (job.links i) {
              to_worker = q;
              blocked = false;
              passed = suc (job.links i).passed;
            })
            job)
      else none

  -- The step that the master answers with is `master_step`, made of those that it has collected. An event
  -- of a worker that is not there, or after the job was cancelled, does not happen.
  unfoldable pub happen : (List S → S) → Event M S → Job M W S → Option (Job M W S)
  unfolding relay_non_local_message enter_barrier handle_payload notify_handler send_answer
      receive_payload
  happen master_step (relay i dst msg) job =
      with_link i (relay_non_local_message i dst msg (job.links i)) job
  happen master_step (enter i s) job = with_link i (enter_barrier s (job.links i)) job
  happen master_step (handle i) job =
      handle_payload i (job.links i).to_master (job.links i).handler job
  happen master_step (notify i) job = notify_handler i (master_step job.barrier.collected_steps) job
  happen master_step (answer i) job = send_answer i (job.links i).handler job
  happen master_step next_barrier job =
      if nat_eqb job.barrier.notified job.num_workers
      then some (record job {
        barrier = new_master_step_barrier job.num_workers;
        episode = suc job.episode;
      })
      else none
  happen master_step (receive i) job = receive_payload i (job.links i).to_worker job

  unfoldable pub fire : (List S → S) → Event M S → Job M W S → Option (Job M W S)
  unfolding happen
  fire master_step e job =
      if not job.cancelled && ltb (worker_of e) job.num_workers
      then happen master_step e job
      else none

  unfoldable pub fire_all : (List S → S) → List (Event M S) → Job M W S → Option (Job M W S)
  unfolding fire run_events
  fire_all master_step = run_events (fire master_step)

abbrev pub new_link : {M W S : Type 0} → Link M W S
new_link = record {
  to_master = [];
  handler = receiving;
  to_worker = [];
  blocked = false;
  passed = 0;
  delivered = [];
}

unfoldable pub new_job : {M W S : Type 0} → ℕ → Range → Job M W S
new_job num_workers part_range = record {
  num_workers = num_workers;
  part_range = part_range;
  links = λ i. new_link;
  barrier = new_master_step_barrier num_workers;
  episode = 0;
  cancelled = false;
}
