-- ===== src/Dbsp/Callbacks/Active.antt =====
-- dbspgraph/executor.go: the callbacks of the master and the workers that decide whether to go on.
use mathlib.Core.Path.{subst}
use etherscan.Base.{
  ℕ, ◌+◌, ◌%◌, ◌<◌, ◌≡◌, refl, ◌∙◌, sym, ap, Bool, true, false, Option, none, some, List, [], ◌∷◌,
  map, arith, All,
}
use etherscan.Aggregator.Int.{word, IntAccumulator}
use etherscan.Aggregator.Int.Deltas.{total}
use etherscan.Bsp.Graph.{Graph}
use etherscan.Bsp.Executor.{ExecutorCallbacks, or_post_step_keep_running}
use etherscan.Rpc.Streams.{Result, ok, error}
use etherscan.Dbsp.Callbacks.{
  Step, MasterBarrier, CallbackError, barrier_failed, post_keep_running, empty_step,
  from_keep_running, add_active, master_post_step_keep_running, worker_post_step_keep_running,
}

-- A worker at the barrier: its Wait, its user's callbacks, its graph with the number of active
-- vertices, and the step that the master gets from it.

pub record AtBarrier (V M W B : Type 0) : Type 0 where
  pub wait : Step W → Result B (Step W)
  pub orig : ExecutorCallbacks V M IntAccumulator
  pub graph : Graph V M IntAccumulator
  pub active_in_step : ℕ
  pub sent : Step W

abbrev pub barrier_fails : {B E : Type 0} → Option (CallbackError B E) → Bool
barrier_fails (some (barrier_failed b)) = true
barrier_fails _ = false

module _ {V M W B : Type 0} where
  -- What the worker hands in is what the master gets, and what Wait returns is what the master
  -- notifies the workers of.
  abbrev pub IsConnectedTo : Step W → AtBarrier V M W B → Type 0
  IsConnectedTo answer w = (s r : Step W) → w.wait s ≡ ok r → (s ≡ w.sent) × (r ≡ answer)

  abbrev pub worker_callback :
      (E : Type 0)
      → AtBarrier V M W B
      → (Bool × Option (CallbackError B E)) × Graph V M IntAccumulator
  worker_callback E w = worker_post_step_keep_running {E = E} w.wait w.orig w.graph w.active_in_step

  -- What the user's callback of the worker makes of the number.
  abbrev pub worker_goes_on :
      (E : Type 0)
      → ℕ
      → AtBarrier V M W B
      → (Bool × Option (CallbackError B E)) × Graph V M IntAccumulator
  worker_goes_on E n w =
      from_keep_running (or_post_step_keep_running w.orig.post_step_keep_running w.graph n)

module _ {V M W B : Type 0} (E : Type 0) (answer : Step W) where
  worker_hears :
      (w : AtBarrier V M W B) (r : Result B (Step W))
      → w.wait (record (empty_step post_keep_running) { active_in_step = w.active_in_step % word })
        ≡ r
      → IsConnectedTo answer w
      → barrier_fails (worker_callback E w).0.1 ≡ false
      → (w.sent.active_in_step ≡ w.active_in_step % word)
        × (worker_callback E w ≡ worker_goes_on E answer.active_in_step w)
  unfolding worker_post_step_keep_running
  worker_hears w (error b) h connected fine = absurd (ground (arith, fine, h))
  worker_hears w (ok r) h connected fine =
      let (same, got) = connected _ r h in
      (
        ap (λ s. s.active_in_step) (sym same),
        rw (h, worker_post_step_keep_running) (ap (λ s. worker_goes_on E s.active_in_step w) got),
      )

  add_active-sent :
      (ws : List (AtBarrier V M W B)) (m : ℕ)
      → m < word
      → All (IsConnectedTo answer) ws
      → All (λ w. barrier_fails (worker_callback E w).0.1 ≡ false) ws
      → (add_active (map (λ w. w.sent) ws) m ≡ (m + total (map (λ w. w.active_in_step) ws)) % word)
        × All (λ w. worker_callback E w ≡ worker_goes_on E answer.active_in_step w) ws
  unfolding add_active
  add_active-sent [] m small all fine = (omega (arith, small), tt)
  add_active-sent (w ∷ ws) m small (connected, all) (fine, fine_all) =
      let (sent, goes_on) = worker_hears w _ refl connected fine in
      let (sum, rest) =
        add_active-sent ws ((m + w.sent.active_in_step) % word) (omega arith) all fine_all in
      (sum ∙ omega (arith, sent), (goes_on, rest))

  master_notifies :
      (barrier : MasterBarrier W B) (orig : ExecutorCallbacks V M IntAccumulator)
      (g : Graph V M IntAccumulator) (steps : List (Step W)) (m : ℕ) (r : Option B)
      → barrier.wait_for_workers post_keep_running ≡ ok steps
      → barrier.notify_workers
          (record (empty_step post_keep_running) { active_in_step = add_active steps m })
        ≡ r
      → ((s : Step W) → barrier.notify_workers s ≡ none → s ≡ answer)
      → barrier_fails (master_post_step_keep_running {E = E} barrier orig g m).0.1 ≡ false
      → (answer.active_in_step ≡ add_active steps m)
        × (master_post_step_keep_running {E = E} barrier orig g m
            ≡ from_keep_running
                (or_post_step_keep_running orig.post_step_keep_running g (add_active steps m)))
  unfolding master_post_step_keep_running
  master_notifies barrier orig g steps m (some b) collected h told fine =
      absurd (ground (arith, fine, h, collected))
  master_notifies barrier orig g steps m none collected h told fine = (
    ap (λ s. s.active_in_step) (sym (told _ h)),
    rw (collected, master_post_step_keep_running) (rw h refl),
  )

  -- If the barrier passes the steps of the workers to the master and the one that the master notifies
  -- them of back to the workers, and fails for none of them, then the user's callbacks of the master
  -- and of all workers get the same number: that of the active vertices of all graphs, modulo 2 ^ 64.
  pub keep_running_agrees :
      (barrier : MasterBarrier W B) (ws : List (AtBarrier V M W B)) (m : ℕ)
      (orig : ExecutorCallbacks V M IntAccumulator) (g : Graph V M IntAccumulator)
      → m < word
      → barrier.wait_for_workers post_keep_running ≡ ok (map (λ w. w.sent) ws)
      → ((s : Step W) → barrier.notify_workers s ≡ none → s ≡ answer)
      → All (IsConnectedTo answer) ws
      → barrier_fails (master_post_step_keep_running {E = E} barrier orig g m).0.1 ≡ false
      → All (λ w. barrier_fails (worker_callback E w).0.1 ≡ false) ws
      → let sum = (m + total (map (λ w. w.active_in_step) ws)) % word in
        (master_post_step_keep_running {E = E} barrier orig g m
          ≡ from_keep_running (or_post_step_keep_running orig.post_step_keep_running g sum))
        × All (λ w. worker_callback E w ≡ worker_goes_on E sum w) ws
  keep_running_agrees barrier ws m orig g small collected told connected fine fine_all =
      let (sum, go_on) = add_active-sent ws m small connected fine_all in
      let (answered, goes_on) =
        master_notifies barrier orig g (map (λ w. w.sent) ws) m _ collected refl told fine in
      (
        goes_on
            ∙ ap
                (λ n. from_keep_running (or_post_step_keep_running orig.post_step_keep_running g n))
                sum,
        subst (λ n. All (λ w. worker_callback E w ≡ worker_goes_on E n w) ws) (answered ∙ sum)
            go_on,
      )
