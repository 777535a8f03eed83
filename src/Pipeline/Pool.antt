-- ===== src/Pipeline/Pool.antt =====
-- pipeline/stage.go: the stage of DynamicWorkerPool, which processes payloads in routines of their own, as
-- many at a time as it has tokens. A run is a sequence of events.
pub mod Places
pub mod Weights
pub mod Routines
pub mod Tokens
use etherscan.Base.{
  ℕ, zero, suc, ◌+◌, Bool, true, false, ◌||◌, ◌&&◌, Option, none, some, List, [], ◌∷◌, ◌++◌, length,
  ltb, if◌then◌else◌,
}
use etherscan.Base.Events.{run_events}
use etherscan.Pipeline.{Outcome, failed, dropped, produced}

-- Where Run is: at its receive, waiting for a token, with that many tokens left to take back, or past
-- its return.
pub data Loop (P : Type 0) : Type 0 where
  receiving : Loop P
  holding : P → Loop P
  emptying : ℕ → Loop P
  returned : Loop P

-- A routine, before Process or before its send.
pub data Routine (P : Type 0) : Type 0 where
  processing sending : P → Routine P

-- `input` is what the previous stage will send before it closes the channel, and `err_ch` the buffer of
-- the channel of errors, of the capacity `err_capacity`. Three fields are not in the program: `failures`
-- has what Process has failed with, and `unread` and `unsent` have the payloads that were given up, before
-- and after Process, as the context was done.
pub record Pool (P E : Type 0) : Type 0 where
  pub proc : P → Outcome P E
  pub max_workers : ℕ
  pub tokens : ℕ
  pub loop : Loop P
  pub routines : List (Routine P)
  pub input : List P
  pub cancelled : Bool
  pub output : List P
  pub processed : List P
  pub err_capacity : ℕ
  pub err_ch : List E
  pub failures : List E
  pub unread : List P
  pub unsent : List P

-- Run receives a payload, starts a routine for it, leaves its loop, takes a token back, or returns; a
-- routine processes its payload, sends it on, or gives it up; Process of the pipeline
-- collects an error, which ends the context; the context ends.
pub data Event : Type 0 where
  read take_token leave take_back return collect : Event
  process send abandon : ℕ → Event
  cancel : Event

-- The routine at that place, and the others.
unfoldable pub pick : {P : Type 0} → ℕ → List (Routine P) → Option (Routine P × List (Routine P))
pick i [] = none
pick zero (r ∷ rs) = some (r, rs)
pick (suc i) (r ∷ rs) = elim (pick i rs) [ none ↦ none | some (r', rest) ↦ some (r', r ∷ rest) ]

module _ {P E : Type 0} where
  unfoldable pub new_pool : (P → Outcome P E) → ℕ → ℕ → List P → Pool P E
  new_pool proc max_workers err_capacity input = record {
    proc = proc;
    max_workers = max_workers;
    tokens = max_workers;
    loop = receiving;
    routines = [];
    input = input;
    cancelled = false;
    output = [];
    processed = [];
    err_capacity = err_capacity;
    err_ch = [];
    failures = [];
    unread = [];
    unsent = [];
  }

  unfoldable pub read_input : Loop P → List P → Pool P E → Option (Pool P E)
  read_input receiving (x ∷ xs) p = some (record p { loop = holding x; input = xs })
  read_input _ _ p = none

  unfoldable pub start_routine : Loop P → ℕ → Pool P E → Option (Pool P E)
  start_routine (holding x) (suc tokens) p =
      some (record p { tokens = tokens; loop = receiving; routines = processing x ∷ p.routines })
  start_routine _ _ p = none

  unfoldable pub leave_loop : Loop P → List P → Pool P E → Option (Pool P E)
  leave_loop receiving [] p = some (record p { loop = emptying p.max_workers })
  leave_loop receiving (x ∷ xs) p =
      if p.cancelled then some (record p { loop = emptying p.max_workers }) else none
  leave_loop (holding x) xs p =
      if p.cancelled
      then some (record p { loop = emptying p.max_workers; unread = x ∷ p.unread })
      else none
  leave_loop _ xs p = none

  unfoldable pub empty_pool : Loop P → ℕ → Pool P E → Option (Pool P E)
  empty_pool (emptying (suc k)) (suc tokens) p =
      some (record p { tokens = tokens; loop = emptying k })
  empty_pool _ _ p = none

  unfoldable pub return_pool : Loop P → Pool P E → Option (Pool P E)
  return_pool (emptying zero) p = some (record p { loop = returned })
  return_pool _ p = none

  -- An error that does not fit in the channel is dropped.
  unfoldable pub maybe_emit_error : E → Pool P E → Pool P E
  maybe_emit_error e p =
      if ltb (length p.err_ch) p.err_capacity then record p { err_ch = p.err_ch ++ e ∷ [] } else p

  -- What is left of a routine that has called Process; a routine that returns gives its token back.
  unfoldable pub run_process : Option (Routine P × List (Routine P)) → Pool P E → Option (Pool P E)
  unfolding maybe_emit_error
  run_process (some (processing x, rs)) p = elim (p.proc x) [
    | failed e ↦ some (
        maybe_emit_error e
          (record p { tokens = suc p.tokens; routines = rs; failures = e ∷ p.failures }))
    | dropped ↦
        some (record p { tokens = suc p.tokens; routines = rs; processed = x ∷ p.processed })
    | produced y ↦ some (record p { routines = sending y ∷ rs })
  ]
  run_process _ p = none

  unfoldable pub send_output : Option (Routine P × List (Routine P)) → Pool P E → Option (Pool P E)
  send_output (some (sending y, rs)) p =
      some (record p { tokens = suc p.tokens; routines = rs; output = y ∷ p.output })
  send_output _ p = none

  unfoldable pub give_up : Option (Routine P × List (Routine P)) → Pool P E → Option (Pool P E)
  give_up (some (sending y, rs)) p =
      if p.cancelled
      then some (record p { tokens = suc p.tokens; routines = rs; unsent = y ∷ p.unsent })
      else none
  give_up _ p = none

  unfoldable pub collect_error : List E → Pool P E → Option (Pool P E)
  collect_error [] p = none
  collect_error (e ∷ es) p = some (record p { err_ch = es; cancelled = true })

  unfoldable pub fire : Event → Pool P E → Option (Pool P E)
  unfolding read_input start_routine leave_loop empty_pool return_pool pick run_process send_output
      give_up collect_error
  fire read p = read_input p.loop p.input p
  fire take_token p = start_routine p.loop p.tokens p
  fire leave p = leave_loop p.loop p.input p
  fire take_back p = empty_pool p.loop p.tokens p
  fire return p = return_pool p.loop p
  fire (process i) p = run_process (pick i p.routines) p
  fire (send i) p = send_output (pick i p.routines) p
  fire (abandon i) p = give_up (pick i p.routines) p
  fire collect p = collect_error p.err_ch p
  fire cancel p = some (record p { cancelled = true })

  unfoldable pub fire_all : List Event → Pool P E → Option (Pool P E)
  unfolding fire run_events
  fire_all = run_events fire
