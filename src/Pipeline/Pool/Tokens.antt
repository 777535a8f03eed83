-- ===== src/Pipeline/Pool/Tokens.antt =====
-- pipeline/stage.go: the tokens of a pool of workers, and what becomes of its payloads.
use etherscan.Base.{ℕ, ◌+◌, ◌≤◌, ◌≡◌, refl, some, List, length, arith}
use etherscan.Base.Events.{Keeps, run_events-Keeps}
use etherscan.Pipeline.{Outcome}
use etherscan.Pipeline.Pool.{
  Pool, Event, read, take_token, leave, take_back, return, process, send, abandon, collect, cancel,
  new_pool, run_process, send_output, give_up, fire, fire_all,
}
use etherscan.Pipeline.Pool.Weights.{Weights, weigh, of_payload, weigh_payloads}
use etherscan.Pipeline.Pool.Places.{
  tokens_left, IsBalanced, read-Keeps, start-Keeps, leave-Keeps, empty-Keeps, return-Keeps,
}
use etherscan.Pipeline.Pool.Routines.{
  picked-Keeps, process_any-Keeps, send-Keeps, collect-Keeps, give_up-Keeps,
}

module _ {P E : Type 0} (weights : Weights P E) (proc : P → Outcome P E) (n total : ℕ) where
  fire-Keeps :
      (p : Pool P E)
      → IsBalanced weights proc n total p
      → (e : Event) → Keeps (IsBalanced weights proc n total) (fire e p)
  unfolding fire
  fire-Keeps p v read = read-Keeps weights proc n total p v p.loop p.input refl refl
  fire-Keeps p v take_token = start-Keeps weights proc n total p v p.loop p.tokens refl refl
  fire-Keeps p v leave = leave-Keeps weights proc n total p v p.loop p.input refl
  fire-Keeps p v take_back = empty-Keeps weights proc n total p v p.loop p.tokens refl refl
  fire-Keeps p v return = return-Keeps weights proc n total p v p.loop refl
  fire-Keeps p v (process i) =
      picked-Keeps weights proc n total p v run_process i tt
        (process_any-Keeps weights proc n total p v)
  fire-Keeps p v (send i) =
      picked-Keeps weights proc n total p v send_output i tt (send-Keeps weights proc n total p v)
  fire-Keeps p v (abandon i) =
      picked-Keeps weights proc n total p v give_up i tt (give_up-Keeps weights proc n total p v)
  fire-Keeps p v collect = collect-Keeps weights proc n total p v p.err_ch
  fire-Keeps p v cancel = record {
    same_proc = v.same_proc;
    limit = v.limit;
    balance = v.balance;
    payloads = v.payloads;
    in_range = v.in_range;
  }

-- Whatever happens in the stage of DynamicWorkerPool, at most `max_workers` payloads are processed at a
-- time. The tokens and routines are as many as Run has not taken back, none of them when it has
-- returned. And whatever weight is given to each outcome of Process (an output, a payload marked as
-- processed, or a failure), the payloads of the input weigh as much as all that is in the pool and its
-- results: as a multiset, what becomes of them is what Process makes of each payload, once.

pub fire_all_balance :
    {P E : Type 0} (proc : P → Outcome P E) (max_workers err_capacity : ℕ) (input : List P)
    (es : List Event) (p : Pool P E)
    → fire_all es (new_pool proc max_workers err_capacity input) ≡ some p
    → (length p.routines ≤ max_workers)
      × (p.tokens + length p.routines ≡ tokens_left max_workers p.loop)
      × ((weights : Weights P E)
          → weigh_payloads weights proc p ≡ weigh (of_payload weights proc) input)
unfolding new_pool fire_all
fire_all_balance {P} {E} proc max_workers err_capacity input es p h =
    let balanced : (weights : Weights P E)
        → IsBalanced weights proc max_workers (weigh (of_payload weights proc) input) p =
      λ weights.
        run_events-Keeps fire
          (IsBalanced weights proc max_workers (weigh (of_payload weights proc) input)) es
          (new_pool proc max_workers err_capacity input) p
          (λ e s v.
            fire-Keeps weights proc max_workers (weigh (of_payload weights proc) input) s v e)
          h
          (record {
            same_proc = refl;
            limit = refl;
            balance = omega arith;
            payloads = omega arith;
            in_range = omega arith;
          }) in
    let v = balanced (record { of_output = λ _. 0; of_processed = λ _. 0; of_failure = λ _. 0 }) in
    (omega (arith, v.balance, v.in_range), v.balance, λ weights. (balanced weights).payloads)
