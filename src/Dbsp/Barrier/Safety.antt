-- ===== src/Dbsp/Barrier/Safety.antt =====
-- dbspgraph/barrier.go: no worker leaves the barrier before all have entered it.
use mathlib.Core.Path.{subst}
use etherscan.Base.{
  ℕ, zero, suc, ◌+◌, ◌<◌, ◌≤◌, ◌≡◌, refl, ◌∙◌, ap, true, some, List, [], ◌∷◌, ◌++◌, length,
  get_elem?, length-append, arith, inl, inr, ◌⊎◌,
}
use etherscan.Base.Events.{Keeps-inversion, run_events-Keeps}
use etherscan.Dbsp.Barrier.{
  Phase, outside, waiting, returned, MasterStepBarrier, Event, join, notify, outsiders,
  new_master_step_barrier, set_phase, is_outside, is_waiting, collect_step, notify_worker, fire,
  fire_all,
}

module _ {S : Type 0} where
  -- The workers that have not joined, and those that have left the barrier.
  abbrev pub count_outside : List (Phase S) → ℕ
  count_outside [] = 0
  count_outside (outside ∷ ps) = suc (count_outside ps)
  count_outside (waiting ∷ ps) = count_outside ps
  count_outside (returned s ∷ ps) = count_outside ps

  abbrev pub count_returned : List (Phase S) → ℕ
  count_returned [] = 0
  count_returned (outside ∷ ps) = count_returned ps
  count_returned (waiting ∷ ps) = count_returned ps
  count_returned (returned s ∷ ps) = suc (count_returned ps)

  count-join :
      (i : ℕ) (ps : List (Phase S))
      → is_outside (get_elem? ps i) ≡ true
      → (count_outside ps ≡ suc (count_outside (set_phase i waiting ps)))
        × (count_returned (set_phase i waiting ps) ≡ count_returned ps)
        × (length (set_phase i waiting ps) ≡ length ps)
  count-join i [] h = ground arith
  count-join zero (outside ∷ ps) h = (refl, refl, refl)
  count-join zero (waiting ∷ ps) h = ground arith
  count-join zero (returned s ∷ ps) h = ground arith
  count-join (suc i) (outside ∷ ps) h = ground (arith, count-join i ps h)
  count-join (suc i) (waiting ∷ ps) h = ground (arith, count-join i ps h)
  count-join (suc i) (returned s ∷ ps) h = ground (arith, count-join i ps h)

  count-notify :
      (i : ℕ) (step : S) (ps : List (Phase S))
      → is_waiting (get_elem? ps i) ≡ true
      → (count_outside (set_phase i (returned step) ps) ≡ count_outside ps)
        × (count_returned (set_phase i (returned step) ps) ≡ suc (count_returned ps))
        × (length (set_phase i (returned step) ps) ≡ length ps)
  count-notify i step [] h = ground arith
  count-notify zero step (outside ∷ ps) h = ground arith
  count-notify zero step (waiting ∷ ps) h = (refl, refl, refl)
  count-notify zero step (returned s ∷ ps) h = ground arith
  count-notify (suc i) step (outside ∷ ps) h = ground (arith, count-notify i step ps h)
  count-notify (suc i) step (waiting ∷ ps) h = ground (arith, count-notify i step ps h)
  count-notify (suc i) step (returned s ∷ ps) h = ground (arith, count-notify i step ps h)

  -- Every worker is outside or has its step collected, and one returns only after the last joined.
  pub record IsInStep (n : ℕ) (b : MasterStepBarrier S) : Type 0 where
    pub all_workers : length b.workers ≡ n
    pub joined : length b.collected_steps + count_outside b.workers ≡ length b.workers
    pub left : count_returned b.workers ≡ b.notified
    pub in_turn : (b.notified ≡ 0) ⊎ (length b.collected_steps ≡ length b.workers)

  abbrev pub after_join : ℕ → S → MasterStepBarrier S → MasterStepBarrier S
  after_join i step b = record b {
    collected_steps = b.collected_steps ++ step ∷ [];
    workers = set_phase i waiting b.workers;
  }

  abbrev pub after_notify : ℕ → S → MasterStepBarrier S → MasterStepBarrier S
  after_notify i step b = record b {
    notified = b.notified + 1;
    workers = set_phase i (returned step) b.workers;
  }

  pub collect_step-inversion :
      (i : ℕ) (step : S) (b b' : MasterStepBarrier S)
      → collect_step i step b ≡ some b'
      → (length b.collected_steps < length b.workers)
        × (is_outside (get_elem? b.workers i) ≡ true)
        × (after_join i step b ≡ b')
  unfolding collect_step
  collect_step-inversion i step b b' h = (ground arith, ground arith, ground arith)

  pub notify_worker-inversion :
      (i : ℕ) (step : S) (b b' : MasterStepBarrier S)
      → notify_worker step i b ≡ some b'
      → (length b.workers ≤ length b.collected_steps)
        × (b.notified < length b.workers)
        × (is_waiting (get_elem? b.workers i) ≡ true)
        × (after_notify i step b ≡ b')
  unfolding notify_worker
  notify_worker-inversion i step b b' h = (ground arith, ground arith, ground arith, ground arith)

  after_join-IsInStep :
      (n : ℕ) (i : ℕ) (step : S) (b : MasterStepBarrier S)
      → length b.collected_steps < length b.workers
      → is_outside (get_elem? b.workers i) ≡ true
      → IsInStep n b
      → IsInStep n (after_join i step b)
  after_join-IsInStep n i step b open_yet out ok =
      let (fewer, same, size) = count-join i b.workers out in
      record {
        all_workers = size ∙ ok.all_workers;
        joined = omega (arith, ok.joined, fewer, size, length-append b.collected_steps (step ∷ []));
        left = same ∙ ok.left;
        in_turn = elim ok.in_turn [
          | inl none_yet ↦ inl none_yet
          | inr full ↦ absurd (omega (arith, full, open_yet))
        ];
      }

  after_notify-IsInStep :
      (n : ℕ) (i : ℕ) (step : S) (b : MasterStepBarrier S)
      → length b.workers ≤ length b.collected_steps
      → is_waiting (get_elem? b.workers i) ≡ true
      → IsInStep n b
      → IsInStep n (after_notify i step b)
  after_notify-IsInStep n i step b full wait ok =
      let (same, more, size) = count-notify i step b.workers wait in
      record {
        all_workers = size ∙ ok.all_workers;
        joined = omega (arith, ok.joined, same, size);
        left = omega (arith, more, ok.left);
        in_turn = inr (omega (arith, ok.joined, full, size));
      }

  pub fire-IsInStep :
      (n : ℕ) (answer : List S → S) (e : Event S) (b b' : MasterStepBarrier S)
      → fire answer e b ≡ some b'
      → IsInStep n b
      → IsInStep n b'
  unfolding fire
  fire-IsInStep n answer (join i step) b b' h ok =
      let (open_yet, out, same) = collect_step-inversion i step b b' h in
      subst (IsInStep n) same (after_join-IsInStep n i step b open_yet out ok)
  fire-IsInStep n answer (notify i) b b' h ok =
      let (full, _, wait, same) = notify_worker-inversion i (answer b.collected_steps) b b' h in
      subst (IsInStep n) same (after_notify-IsInStep n i (answer b.collected_steps) b full wait ok)

  pub fire_all-IsInStep :
      (n : ℕ) (answer : List S → S) (es : List (Event S)) (b b' : MasterStepBarrier S)
      → fire_all answer es b ≡ some b'
      → IsInStep n b
      → IsInStep n b'
  unfolding fire_all
  fire_all-IsInStep n answer es b b' h ok =
      run_events-Keeps (fire answer) (IsInStep n) es b b'
        (λ e x ok.
          Keeps-inversion (IsInStep n) (fire answer e x)
            λ y fired. fire-IsInStep n answer e x y fired ok)
        h ok

outsiders-counts :
    (S : Type 0) (n : ℕ)
    → (count_outside (outsiders {S = S} n) ≡ n)
      × (count_returned (outsiders {S = S} n) ≡ 0)
      × (length (outsiders {S = S} n) ≡ n)
outsiders-counts S zero = (refl, refl, refl)
outsiders-counts S (suc n) =
    let (out, back, size) = outsiders-counts S n in (ap suc out, back, ap suc size)

pub new-IsInStep : {S : Type 0} (n : ℕ) → IsInStep n (new_master_step_barrier {S = S} n)
unfolding new_master_step_barrier
new-IsInStep {S} n =
    let (out, back, size) = outsiders-counts S n in
    record {
      all_workers = size;
      joined = omega (arith, out, size);
      left = back;
      in_turn = inl refl;
    }

-- After any events from the start, a worker has left the barrier only if all of them have entered it
-- and the master has the steps of all; and at no time have more left than were notified.
pub fire_all_together :
    {S : Type 0} (answer : List S → S) (n : ℕ) (es : List (Event S)) (b : MasterStepBarrier S)
    → fire_all answer es (new_master_step_barrier n) ≡ some b
    → 0 < count_returned b.workers
    → (count_outside b.workers ≡ 0)
      × (length b.collected_steps ≡ n)
      × (count_returned b.workers ≡ b.notified)
fire_all_together answer n es b h some_left =
    let ok = fire_all-IsInStep n answer es (new_master_step_barrier n) b h (new-IsInStep n) in
    elim ok.in_turn [
      | inl none_left ↦ absurd (omega (arith, some_left, ok.left, none_left))
      | inr full ↦ (omega (arith, ok.joined, full), full ∙ ok.all_workers, ok.left)
    ]
