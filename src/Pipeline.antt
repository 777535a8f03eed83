-- ===== src/Pipeline.antt =====
-- pipeline/: a pipeline of FIFO stages (pipeline.go, stage.go). The channels between its workers have no
-- buffer, so that a send and its receive are one event, and a run of Process is a sequence of events.
pub mod Order
pub mod Pool
pub mod Broadcast
mod Examples
use etherscan.Base.{
  ℕ, zero, suc, ◌+◌, Bool, true, false, not, ◌&&◌, ◌||◌, Option, none, some, List, [], ◌∷◌, ◌++◌,
  length, ltb, if◌then◌else◌,
}
use etherscan.Base.Events.{run_events}

-- What Process of a Processor gives: an error, no payload for the next stage, or a payload.
pub data Outcome (P E : Type 0) : Type 0 where
  failed : E → Outcome P E
  dropped : Outcome P E
  produced : P → Outcome P E

-- Where the loop of a stage is: before its receive, before its send, or past its return.
pub data Worker (P : Type 0) : Type 0 where
  receiving : Worker P
  sending : P → Worker P
  stopped : Worker P

pub record Stage (P E : Type 0) : Type 0 where
  pub process : P → Outcome P E
  pub worker : Worker P

-- What the end of the pipeline and all workers share: `consumed` are the payloads that the sink took,
-- `processed` those that were marked so, `running` is whether sinkWorker is in its loop, and `err_ch`
-- is the buffer of the channel of errors, of the capacity `err_capacity`.
pub record Outlet (P E : Type 0) : Type 0 where
  pub consume : P → Option E
  pub consumed : List P
  pub processed : List P
  pub running : Bool
  pub err_capacity : ℕ
  pub err_ch : List E

-- `source` are the payloads that the source has left, `source_error` is what its Error gives, and `err`
-- what Process has collected.
pub record Pipeline (P E : Type 0) : Type 0 where
  pub source : List P
  pub source_error : Option E
  pub source_running : Bool
  pub stages : List (Stage P E)
  pub outlet : Outlet P E
  pub cancelled : Bool
  pub err : List E

-- The source sends to the first stage, a stage to its successor, a worker returns, Process collects an
-- error, or the context of the caller expires. After the stages the number of a worker means the sink.
pub data Event : Type 0 where
  feed : Event
  pass_on : ℕ → Event
  stop : ℕ → Event
  stop_source collect expire : Event

abbrev pub is_stopped : {P : Type 0} → Worker P → Bool
is_stopped stopped = true
is_stopped _ = false

module _ {P E : Type 0} where
  unfoldable pub maybe_emit_error : E → Outlet P E → Outlet P E
  maybe_emit_error e o =
      if ltb (length o.err_ch) o.err_capacity then record o { err_ch = o.err_ch ++ e ∷ [] } else o

  unfoldable pub mark_as_processed : P → Outlet P E → Outlet P E
  mark_as_processed p o = record o { processed = o.processed ++ p ∷ [] }

  -- A round of the loop of sinkWorker.
  unfoldable pub sink_worker : P → Outlet P E → Outlet P E
  unfolding maybe_emit_error mark_as_processed
  sink_worker p o = elim (o.consume p) [
    | none ↦ mark_as_processed p (record o { consumed = o.consumed ++ p ∷ [] })
    | some e ↦ maybe_emit_error e (record o { running = false })
  ]

  -- What a stage does with a payload that it receives.
  unfoldable pub run_stage : P → Stage P E → Outlet P E → Stage P E × Outlet P E
  unfolding maybe_emit_error mark_as_processed
  run_stage p s o = elim (s.process p) [
    | failed e ↦ (record s { worker = stopped }, maybe_emit_error e o)
    | dropped ↦ (s, mark_as_processed p o)
    | produced q ↦ (record s { worker = sending q }, o)
  ]

  -- The worker at the front of the stages, or the sink, receives; `none` if it is not ready to.
  unfoldable pub receive :
      P → List (Stage P E) → Outlet P E → Option (List (Stage P E) × Outlet P E)
  unfolding sink_worker run_stage
  receive p [] o = if o.running then some ([], sink_worker p o) else none
  receive p (s ∷ ss) o = elim (s.worker) [
    | receiving ↦ let (s', o') = run_stage p s o in some (s' ∷ ss, o')
    | sending q ↦ none
    | stopped ↦ none
  ]

  abbrev pub behind :
      Stage P E → Option (List (Stage P E) × Outlet P E) → Option (List (Stage P E) × Outlet P E)
  behind s none = none
  behind s (some (ss, o)) = some (s ∷ ss, o)

  unfoldable pub send : ℕ → List (Stage P E) → Outlet P E → Option (List (Stage P E) × Outlet P E)
  unfolding receive
  send i [] o = none
  send zero (s ∷ ss) o = elim (s.worker) [
    | receiving ↦ none
    | sending p ↦ behind (record s { worker = receiving }) (receive p ss o)
    | stopped ↦ none
  ]
  send (suc i) (s ∷ ss) o = behind s (send i ss o)

  -- A worker returns if the context is done, or at its receive if the channel is closed.
  unfoldable pub shut_down :
      Bool → Bool → ℕ → List (Stage P E) → Outlet P E → Option (List (Stage P E) × Outlet P E)
  shut_down done closed i [] o =
      if o.running && (done || closed) then some ([], record o { running = false }) else none
  shut_down done closed zero (s ∷ ss) o = elim (s.worker) [
    | receiving ↦ if done || closed then some (record s { worker = stopped } ∷ ss, o) else none
    | sending p ↦ if done then some (record s { worker = stopped } ∷ ss, o) else none
    | stopped ↦ none
  ]
  shut_down done closed (suc i) (s ∷ ss) o = behind s (shut_down done (is_stopped s.worker) i ss o)

  abbrev pub with_stages :
      Pipeline P E → Option (List (Stage P E) × Outlet P E) → Option (Pipeline P E)
  with_stages l none = none
  with_stages l (some (ss, o)) = some (record l { stages = ss; outlet = o })

  -- sourceWorker sends a payload.
  unfoldable pub source_worker : List P → Pipeline P E → Option (Pipeline P E)
  unfolding receive
  source_worker [] l = none
  source_worker (p ∷ ps) l =
      if l.source_running
      then with_stages (record l { source = ps }) (receive p l.stages l.outlet)
      else none

  abbrev pub emit_option : Option E → Outlet P E → Outlet P E
  unfolding maybe_emit_error
  emit_option none o = o
  emit_option (some e) o = maybe_emit_error e o

  -- sourceWorker returns: at the end of the source, with its error, or since the context is done.
  unfoldable pub source_stop : List P → Pipeline P E → Option (Pipeline P E)
  unfolding maybe_emit_error
  source_stop [] l =
      if l.source_running
      then some (record l { source_running = false; outlet = emit_option l.source_error l.outlet })
      else none
  source_stop (p ∷ ps) l =
      if l.source_running && l.cancelled then some (record l { source_running = false }) else none

  unfoldable pub collect_error : List E → Pipeline P E → Option (Pipeline P E)
  collect_error [] l = none
  collect_error (e ∷ es) l = some (record l {
    outlet = record l.outlet { err_ch = es };
    cancelled = true;
    err = l.err ++ e ∷ [];
  })

  unfoldable pub fire : Event → Pipeline P E → Option (Pipeline P E)
  unfolding source_worker send shut_down source_stop collect_error
  fire feed l = source_worker l.source l
  fire (pass_on i) l = with_stages l (send i l.stages l.outlet)
  fire (stop i) l = with_stages l (shut_down l.cancelled (not l.source_running) i l.stages l.outlet)
  fire stop_source l = source_stop l.source l
  fire collect l = collect_error l.outlet.err_ch l
  fire expire l = some (record l { cancelled = true })

  unfoldable pub fire_all : List Event → Pipeline P E → Option (Pipeline P E)
  unfolding fire run_events
  fire_all = run_events fire

  abbrev pub new_stages : List (P → Outcome P E) → List (Stage P E)
  new_stages [] = []
  new_stages (f ∷ fs) = record { process = f; worker = receiving } ∷ new_stages fs

  -- Process after it has made its channels and started its workers.
  unfoldable pub start : List (P → Outcome P E) → (P → Option E) → List P → Option E → Pipeline P E
  start fs consume source source_error = record {
    source = source;
    source_error = source_error;
    source_running = true;
    stages = new_stages fs;
    outlet = record {
      consume = consume;
      consumed = [];
      processed = [];
      running = true;
      err_capacity = length fs + 2;
      err_ch = [];
    };
    cancelled = false;
    err = [];
  }
