-- ===== src/Pipeline/Broadcast.antt =====
-- pipeline/stage.go: the stage of Broadcast, which passes each payload to several FIFOs. Each FIFO has an
-- input channel of its own, without a buffer, so that a send and its receive are one event.
pub mod Handed
pub mod Copies
use etherscan.Base.{
  ℕ, zero, suc, Bool, true, false, not, ◌||◌, ◌&&◌, Option, none, some, List, [], ◌∷◌, ◌++◌, length,
  if◌then◌else◌,
}
use etherscan.Base.Events.{run_events}
use etherscan.Pipeline.{
  Outcome, Worker, receiving, sending, stopped, Stage, Outlet, run_stage, is_stopped,
}

-- A FIFO. `taken` is not in the program: it has the payloads that the FIFO received.
pub record Fifo (P E : Type 0) : Type 0 where
  pub stage : Stage P E
  pub taken : List P

-- Where Run is: in its loop, past it with the input channels of the FIFOs closed, or past its return.
pub data Loop : Type 0 where
  running leaving returned : Loop

-- `clone` is Clone of the payloads, and `input` what the previous stage will send before it closes the
-- channel. `pending` is the payload that Run passes on, with the number of FIFOs that have yet to get it,
-- and `passed`, which is not in the program, has those that all FIFOs got.
pub record Broadcast (P E : Type 0) : Type 0 where
  pub clone : P → P
  pub fifos : List (Fifo P E)
  pub outlet : Outlet P E
  pub loop : Loop
  pub pending : Option (ℕ × P)
  pub passed : List P
  pub input : List P
  pub cancelled : Bool
  pub output : List P

-- Run reads a payload, passes it to the next FIFO, leaves its loop, or returns; a FIFO sends what it made
-- of a payload, or returns; the context ends.
pub data Event : Type 0 where
  read pass leave return cancel : Event
  send stop : ℕ → Event

abbrev pub is_running : Loop → Bool
is_running running = true
is_running _ = false

-- What a FIFO gets: the payload itself if it is the first one, a copy otherwise.
abbrev pub copy : {P : Type 0} → (P → P) → ℕ → P → P
copy clone zero p = p
copy clone (suc i) p = clone p

module _ {P E : Type 0} where
  abbrev pub new_fifos : List (P → Outcome P E) → List (Fifo P E)
  new_fifos [] = []
  new_fifos (f ∷ fs) =
      record { stage = record { process = f; worker = receiving }; taken = [] } ∷ new_fifos fs

  -- `none` is the panic.
  unfoldable pub new_broadcast :
      List (P → Outcome P E) → (P → P) → Outlet P E → List P → Option (Broadcast P E)
  new_broadcast [] clone outlet input = none
  new_broadcast (f ∷ fs) clone outlet input = some (record {
    clone = clone;
    fifos = new_fifos (f ∷ fs);
    outlet = outlet;
    loop = running;
    pending = none;
    passed = [];
    input = input;
    cancelled = false;
    output = [];
  })

  unfoldable pub read_input :
      Loop → Option (ℕ × P) → List P → Broadcast P E → Option (Broadcast P E)
  read_input running none (x ∷ xs) b =
      some (record b { pending = some (length b.fifos, x); input = xs })
  read_input _ _ _ b = none

  -- The FIFO at that place receives the payload and calls Process; `none` if it is not at its receive.
  unfoldable pub receive :
      ℕ → P → List (Fifo P E) → Outlet P E → Option (List (Fifo P E) × Outlet P E)
  unfolding run_stage
  receive i p [] o = none
  receive zero p (f ∷ fs) o = elim (f.stage.worker) [
    | receiving ↦
        let (s, o') = run_stage p f.stage o in
        some (record { stage = s; taken = f.taken ++ p ∷ [] } ∷ fs, o')
    | sending q ↦ none
    | stopped ↦ none
  ]
  receive (suc i) p (f ∷ fs) o = elim (receive i p fs o) [
    | none ↦ none
    | some (fs', o') ↦ some (f ∷ fs', o')
  ]

  -- The FIFOs below that place have yet to get the payload.
  abbrev pub after_pass : ℕ → P → Broadcast P E → Broadcast P E
  after_pass zero p b = record b { pending = none; passed = b.passed ++ p ∷ [] }
  after_pass (suc i) p b = record b { pending = some (suc i, p) }

  unfoldable pub pass_payload : Loop → Option (ℕ × P) → Broadcast P E → Option (Broadcast P E)
  unfolding receive
  pass_payload running (some (suc i, p)) b = elim (receive i (copy b.clone i p) b.fifos b.outlet) [
    | none ↦ none
    | some (fs, o) ↦ some (after_pass i p (record b { fifos = fs; outlet = o }))
  ]
  pass_payload _ _ b = none

  unfoldable pub leave_loop :
      Loop → Option (ℕ × P) → List P → Broadcast P E → Option (Broadcast P E)
  leave_loop running none [] b = some (record b { loop = leaving })
  leave_loop running _ _ b = if b.cancelled then some (record b { loop = leaving }) else none
  leave_loop _ _ _ b = none

  abbrev pub all_stopped : List (Fifo P E) → Bool
  all_stopped [] = true
  all_stopped (f ∷ fs) = is_stopped f.stage.worker && all_stopped fs

  unfoldable pub return_broadcast : Loop → Broadcast P E → Option (Broadcast P E)
  return_broadcast leaving b =
      if all_stopped b.fifos then some (record b { loop = returned }) else none
  return_broadcast _ b = none

  unfoldable pub worker_at : ℕ → List (Fifo P E) → Worker P
  worker_at i [] = stopped
  worker_at zero (f ∷ fs) = f.stage.worker
  worker_at (suc i) (f ∷ fs) = worker_at i fs

  unfoldable pub set_worker : ℕ → Worker P → List (Fifo P E) → List (Fifo P E)
  set_worker i w [] = []
  set_worker zero w (f ∷ fs) = record f { stage = record f.stage { worker = w } } ∷ fs
  set_worker (suc i) w (f ∷ fs) = f ∷ set_worker i w fs

  unfoldable pub send_output : ℕ → Worker P → Broadcast P E → Option (Broadcast P E)
  unfolding set_worker
  send_output i (sending q) b =
      some (record b { fifos = set_worker i receiving b.fifos; output = b.output ++ q ∷ [] })
  send_output i _ b = none

  -- A FIFO returns if the context is done, or at its receive if its channel is closed.
  unfoldable pub stop_fifo : ℕ → Worker P → Broadcast P E → Option (Broadcast P E)
  unfolding set_worker
  stop_fifo i receiving b =
      if b.cancelled || not (is_running b.loop)
      then some (record b { fifos = set_worker i stopped b.fifos })
      else none
  stop_fifo i (sending q) b =
      if b.cancelled then some (record b { fifos = set_worker i stopped b.fifos }) else none
  stop_fifo i stopped b = none

  unfoldable pub fire : Event → Broadcast P E → Option (Broadcast P E)
  unfolding read_input pass_payload leave_loop return_broadcast worker_at send_output stop_fifo
  fire read b = read_input b.loop b.pending b.input b
  fire pass b = pass_payload b.loop b.pending b
  fire leave b = leave_loop b.loop b.pending b.input b
  fire return b = return_broadcast b.loop b
  fire cancel b = some (record b { cancelled = true })
  fire (send i) b = send_output i (worker_at i b.fifos) b
  fire (stop i) b = stop_fifo i (worker_at i b.fifos) b

  unfoldable pub fire_all : List Event → Broadcast P E → Option (Broadcast P E)
  unfolding fire run_events
  fire_all = run_events fire
