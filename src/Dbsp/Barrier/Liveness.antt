-- ===== src/Dbsp/Barrier/Liveness.antt =====
-- dbspgraph/barrier.go: the barrier is never stuck, and every episode ends.
use etherscan.Base.{
  ℕ, suc, ◌+◌, ◌*◌, ◌<◌, ◌≤◌, ◌≡◌, refl, ap, true, some, List, [], ◌∷◌, length, get_elem?,
  length-append, arith, ltb, ltb→lt, Option-cases, Bool-cases, inl, inr, ◌⊎◌,
}
use etherscan.Base.Events.{run_events}
use etherscan.Dbsp.Barrier.{
  Phase, outside, waiting, returned, MasterStepBarrier, Event, join, notify,
  new_master_step_barrier, is_outside, is_waiting, collect_step, notify_worker, fire, fire_all,
}
use etherscan.Dbsp.Barrier.Safety.{
  after_join, after_notify, count_outside, count_returned, IsInStep, fire_all-IsInStep,
  new-IsInStep,
}

module _ {S : Type 0} where
  some_outside :
      (ps : List (Phase S)) → 0 < count_outside ps → (i : ℕ) × (is_outside (get_elem? ps i) ≡ true)
  some_outside [] h = absurd (omega arith)
  some_outside (outside ∷ ps) h = (0, refl)
  some_outside (waiting ∷ ps) h = let (i, out) = some_outside ps h in (suc i, out)
  some_outside (returned s ∷ ps) h = let (i, out) = some_outside ps h in (suc i, out)

  some_waiting :
      (ps : List (Phase S))
      → count_outside ps + count_returned ps < length ps
      → (i : ℕ) × (is_waiting (get_elem? ps i) ≡ true)
  some_waiting [] h = absurd (omega arith)
  some_waiting (waiting ∷ ps) h = (0, refl)
  some_waiting (outside ∷ ps) h = let (i, wait) = some_waiting ps (omega arith) in (suc i, wait)
  some_waiting (returned s ∷ ps) h = let (i, wait) = some_waiting ps (omega arith) in (suc i, wait)

  -- A step is collected, or a worker notified.
  abbrev progress : MasterStepBarrier S → ℕ
  progress b = length b.collected_steps + b.notified

  fire-progress :
      (answer : List S → S) (e : Event S) (b b' : MasterStepBarrier S)
      → fire answer e b ≡ some b'
      → progress b' ≡ suc (progress b)
  unfolding fire collect_step notify_worker
  fire-progress answer (join i step) b b' h =
      ground (arith, h, length-append b.collected_steps (step ∷ []))
  fire-progress answer (notify i) b b' h = ground (arith, h)

  fire_all-progress :
      (answer : List S → S) (es : List (Event S)) (b b' : MasterStepBarrier S)
      → fire_all answer es b ≡ some b'
      → progress b' ≡ length es + progress b
  unfolding fire_all run_events
  fire_all-progress answer [] b b' h =
      let same : (b ≡ b') = ground (arith, h) in omega (arith, ap progress same)
  fire_all-progress answer (e ∷ es) b b' h = elim (Option-cases (fire answer e b)) [
    | inl stuck ↦ absurd (ground (arith, h, stuck))
    | inr (b1, fired) ↦ omega (
      arith,
      fire_all-progress answer es b1 b' (ground (arith, h, fired)),
      fire-progress answer e b b1 fired,
    )
  ]

  collect_step_enabled :
      (i : ℕ) (step : S) (b : MasterStepBarrier S)
      → length b.collected_steps < length b.workers
      → is_outside (get_elem? b.workers i) ≡ true
      → (b' : MasterStepBarrier S) × (collect_step i step b ≡ some b')
  unfolding collect_step
  collect_step_enabled i step b open_yet out = (after_join i step b, ground arith)

  notify_worker_enabled :
      (i : ℕ) (step : S) (b : MasterStepBarrier S)
      → length b.workers ≤ length b.collected_steps
      → b.notified < length b.workers
      → is_waiting (get_elem? b.workers i) ≡ true
      → (b' : MasterStepBarrier S) × (notify_worker step i b ≡ some b')
  unfolding notify_worker
  notify_worker_enabled i step b full left wait = (after_notify i step b, ground arith)

  -- While a worker is in the barrier or before it, something can happen.
  enabled :
      (answer : List S → S) (step : S) (n : ℕ) (b : MasterStepBarrier S)
      → IsInStep n b
      → count_returned b.workers < n
      → (e : Event S) × (b' : MasterStepBarrier S) × (fire answer e b ≡ some b')
  unfolding fire
  enabled answer step n b ok behind = elim (Bool-cases (ltb (length b.collected_steps) n)) [
    | inl open_yet ↦
        let (i, out) = some_outside b.workers (
          omega (arith, ltb→lt (length b.collected_steps) n open_yet, ok.joined, ok.all_workers)) in
        let (b', fired) =
          collect_step_enabled i step b
            (omega (arith, ltb→lt (length b.collected_steps) n open_yet, ok.all_workers)) out in
        (join i step, b', fired)
    | inr full ↦
        let enough : (n ≤ length b.collected_steps) = ground (arith, full) in
        let (i, wait) =
          some_waiting b.workers (omega (arith, enough, ok.joined, ok.all_workers, behind)) in
        let (b', fired) =
          notify_worker_enabled i (answer b.collected_steps) b
            (omega (arith, enough, ok.all_workers)) (omega (arith, ok.left, behind, ok.all_workers))
            wait in
        (notify i, b', fired)
  ]

  length-bound :
      (n : ℕ) (b : MasterStepBarrier S)
      → IsInStep n b
      → count_returned b.workers ≤ n
      → progress b ≤ 2 * n
  length-bound n b ok few = omega (arith, ok.joined, ok.left, ok.all_workers, few)

  count_returned-bound : (ps : List (Phase S)) → count_returned ps ≤ length ps
  count_returned-bound [] = omega arith
  count_returned-bound (outside ∷ ps) = omega (arith, count_returned-bound ps)
  count_returned-bound (waiting ∷ ps) = omega (arith, count_returned-bound ps)
  count_returned-bound (returned s ∷ ps) = omega (arith, count_returned-bound ps)

  -- An episode of the barrier has at most two events for each worker, and until all workers have
  -- left there is an event that can happen next: a worker joins with any step, or is notified. The
  -- context must not be done.
  pub fire_all_live :
      (answer : List S → S) (step : S) (n : ℕ) (es : List (Event S)) (b : MasterStepBarrier S)
      → fire_all answer es (new_master_step_barrier n) ≡ some b
      → (length es ≤ 2 * n)
        × ((count_returned b.workers ≡ n)
            ⊎ ((e : Event S) × (b' : MasterStepBarrier S) × (fire answer e b ≡ some b')))
  fire_all_live answer step n es b h =
      let ok = fire_all-IsInStep n answer es (new_master_step_barrier n) b h (new-IsInStep n) in
      let few : (count_returned b.workers ≤ n) =
        omega (arith, count_returned-bound b.workers, ok.all_workers) in
      (
        omega (
          arith,
          fire_all-progress answer es (new_master_step_barrier n) b h,
          length-bound n b ok few,
        ),
        elim (Bool-cases (ltb (count_returned b.workers) n)) [
          | inl behind ↦
              inr (enabled answer step n b ok (ltb→lt (count_returned b.workers) n behind))
          | inr done ↦ inl (ground (arith, few, done))
        ],
      )
