-- ===== src/Dbsp/Relay/Jobs.antt =====
-- dbspgraph/: what the master's handling of a payload keeps of a job.
use mathlib.Core.Path.{subst}
use etherscan.Base.{
  ℕ, ◌+◌, ◌<◌, ◌≤◌, ◌≡◌, refl, sym, ap, ◌∙◌, true, false, Option, none, some, List, ◌∷◌, length,
  get_elem?, nat_eqb, ltb, arith, inl, inr, ◌%◌, ℤ, pos, negsuc, Bool-cases, if◌then◌else◌,
}
use etherscan.Base.Events.{Keeps, if-Keeps}
use etherscan.Partition.Range.{Range, Error, partition_for_addr}
use etherscan.Dbsp.Barrier
use etherscan.Dbsp.Barrier.{
  Phase, outside, waiting, returned, MasterStepBarrier, set_phase, is_outside, is_waiting,
  outsiders, join, new_master_step_barrier, collect_step, notify_worker,
}
use etherscan.Dbsp.Barrier.Safety.{IsInStep, fire-IsInStep, collect_step-inversion}
use etherscan.Dbsp.Relay.{
  RelayMessage, Payload, relay_message, step, entered, Link, Job, update, send_to_worker, set_link,
  forward, with_barrier,
}
use etherscan.Dbsp.Relay.Numbering.{
  joined_in, get_elem?-set_phase_self, get_elem?-set_phase_other, is_outside-numbers,
  left_in-bounds,
}
use etherscan.Dbsp.Relay.Moves.{taking-settled, take-LinkOk, forward-LinkOk, join-LinkOk}
use etherscan.Dbsp.Relay.Links.{count_steps, answers, in_wait, LinkOk}

update_self : {A : Type 0} (i : ℕ) (x : A) (f : ℕ → A) → update i x f i ≡ x
update_self i x f = ground arith

module _ {M W S : Type 0} where
  pub record JobOk (job : Job M W S) : Type 0 where
    pub in_step : IsInStep job.num_workers job.barrier
    pub all_links :
        (j : ℕ)
        → j < job.num_workers
        → LinkOk job.part_range job.episode (get_elem? job.barrier.workers j) j (job.links j)

  -- A change of one link, and of the phase of its handler.
  pub update-LinkOk :
      (r : Range) (e n i : ℕ) (l : Link M W S) (links : ℕ → Link M W S) (ps ps' : List (Phase S))
      → ((j : ℕ) → j < n → LinkOk r e (get_elem? ps j) j (links j))
      → ((j : ℕ) → nat_eqb i j ≡ false → get_elem? ps' j ≡ get_elem? ps j)
      → LinkOk r e (get_elem? ps' i) i l
      → (j : ℕ) → j < n
      → LinkOk r e (get_elem? ps' j) j (update i l links j)
  update-LinkOk r e n i l links ps ps' all same new j lt = elim (Bool-cases (nat_eqb i j)) [
    | inl eq ↦
        let here : i ≡ j = ground (arith, eq) in
        rw eq (subst (λ k. LinkOk r e (get_elem? ps' k) k l) here new)
    | inr ne ↦ rw ne (subst (λ p. LinkOk r e p j (links j)) (sym (same j ne)) (all j lt))
  ]

  pub set_link-JobOk :
      (i : ℕ) (l : Link M W S) (job : Job M W S)
      → JobOk job
      → LinkOk job.part_range job.episode (get_elem? job.barrier.workers i) i l
      → JobOk (set_link i l job)
  set_link-JobOk i l job v new = record {
    in_step = v.in_step;
    all_links =
        update-LinkOk job.part_range job.episode job.num_workers i l job.links job.barrier.workers
          job.barrier.workers v.all_links (λ j ne. refl) new;
  }

  -- A worker whose payload is handled has passed as many barriers as its handler has left, and its
  -- number lies between those of any other worker.
  pub sender-bounds :
      (i k : ℕ) (job : Job M W S)
      → JobOk job
      → i < job.num_workers
      → k < job.num_workers
      → count_steps (job.links i).to_worker
          + answers (job.links i).handler
          + in_wait (job.links i).handler
        ≡ 0
      → ((job.links k).passed + count_steps (job.links k).to_worker ≤ (job.links i).passed)
        × ((job.links i).passed ≤ job.episode + joined_in (get_elem? job.barrier.workers k))
  sender-bounds i k job v i_lt k_lt free =
      let at_i = v.all_links i i_lt in
      let at_k = v.all_links k k_lt in
      let (low, high) =
        left_in-bounds job.num_workers i k job.barrier v.in_step i_lt k_lt
          (omega (arith, at_i.waiting_too, free)) in
      (
        omega (arith, at_i.numbers, at_k.numbers, free, low, high),
        omega (arith, at_i.numbers, free, high),
      )

  pub cancel-JobOk : (job : Job M W S) → JobOk job → JobOk (record job { cancelled = true })
  cancel-JobOk job v = record { in_step = v.in_step; all_links = v.all_links }

  pub forward-Keeps :
      (src : ℕ) (m : RelayMessage W) (found : ℤ × Option Error) (job : Job M W S)
      → JobOk job
      → partition_for_addr m.destination job.part_range ≡ found
      → m.sent_in % 3 ≡ 1
      → ((k : ℕ)
          → k < job.num_workers
          → ((job.links k).passed + count_steps (job.links k).to_worker ≤ m.sent_in)
            × (m.sent_in ≤ job.episode + joined_in (get_elem? job.barrier.workers k)))
      → Keeps JobOk (forward src m found job)
  unfolding forward
  forward-Keeps src m (part_index, some e) job v at computes bounds = cancel-JobOk job v
  forward-Keeps src m (negsuc k, none) job v at computes bounds = tt
  forward-Keeps src m (pos k, none) job v at computes bounds =
      elim (nat_eqb k src)
        as (λ b. Keeps JobOk (
          if b
          then some (record job { cancelled = true })
          else if ltb k job.num_workers
          then some (set_link k (send_to_worker (relay_message m) (job.links k)) job)
          else none)) [
            | true ↦ cancel-JobOk job v
            | false ↦
                if-Keeps JobOk (ltb k job.num_workers)
                  (some (set_link k (send_to_worker (relay_message m) (job.links k)) job))
                  λ h.
                    let k_lt : k < job.num_workers = ground (arith, h) in
                    let (low, high) = bounds k k_lt in
                    set_link-JobOk k (send_to_worker (relay_message m) (job.links k)) job v (
                      forward-LinkOk job.part_range job.episode k (get_elem? job.barrier.workers k)
                        (job.links k) m (v.all_links k k_lt) low high (computes, at))
          ]

  pub handle_relay-Keeps :
      (i : ℕ) (m : RelayMessage W) (q : List (Payload W S)) (job : Job M W S)
      → JobOk job
      → i < job.num_workers
      → (job.links i).to_master ≡ relay_message m ∷ q
      → Keeps JobOk (
          forward i m
            (partition_for_addr m.destination job.part_range)
            (set_link i (record (job.links i) { to_master = q }) job))
  handle_relay-Keeps i m q job v i_lt here =
      let l = record (job.links i) { to_master = q } in
      let p = get_elem? job.barrier.workers i in
      let (now, computes, taken) =
        take-LinkOk job.part_range job.episode i p (job.links i) m q (v.all_links i i_lt) here in
      let free =
        taking-settled job.part_range job.episode i p (job.links i) (relay_message m) q
          (v.all_links i i_lt) here in
      let v' = set_link-JobOk i l job v taken in
      let same = update_self i l job.links in
      forward-Keeps i m (partition_for_addr m.destination job.part_range) (set_link i l job) v' refl
        computes
        λ k k_lt.
          let (low, high) = sender-bounds i k (set_link i l job) v' i_lt k_lt (rw same free) in
          (
            omega (arith, low, now, ap (λ x. x.passed) same),
            omega (arith, high, now, ap (λ x. x.passed) same),
          )

  -- A barrier that goes on for worker `i` only.
  pub with_barrier-Keeps :
      (i : ℕ) (l : Link M W S) (b : Option (MasterStepBarrier S)) (job : Job M W S)
      → ((b' : MasterStepBarrier S)
          → b ≡ some b'
          → IsInStep job.num_workers b'
            × ((j : ℕ)
                → j < job.num_workers
                → LinkOk job.part_range job.episode
                    (get_elem? b'.workers j)
                    j
                    (update i l job.links j)))
      → Keeps JobOk (with_barrier i l b job)
  with_barrier-Keeps i l none job h = tt
  with_barrier-Keeps i l (some b) job h =
      let (in_step, all) = h b refl in record { in_step = in_step; all_links = all }

  pub handle_step-Keeps :
      (i : ℕ) (s : S) (q : List (Payload W S)) (job : Job M W S)
      → JobOk job
      → i < job.num_workers
      → (job.links i).to_master ≡ step s ∷ q
      → Keeps JobOk (
          with_barrier i
            (record (job.links i) { to_master = q; handler = entered })
            (collect_step i s job.barrier)
            job)
  unfolding Barrier.fire
  handle_step-Keeps i s q job v i_lt here =
      with_barrier-Keeps i (record (job.links i) { to_master = q; handler = entered })
        (collect_step i s job.barrier) job
        λ b' h.
          let (_, out, same) = collect_step-inversion i s job.barrier b' h in
          let ps = job.barrier.workers in
          let set : b'.workers ≡ set_phase i waiting ps = sym (ap (λ x. x.workers) same) in
          let i_in : i < length ps = omega (arith, i_lt, v.in_step.all_workers) in
          let at_i : get_elem? b'.workers i ≡ some waiting =
            ap (λ x. get_elem? x i) set ∙ get_elem?-set_phase_self i waiting ps i_in in
          (
            fire-IsInStep job.num_workers (λ ss. s) (join i s) job.barrier b' h v.in_step,
            update-LinkOk job.part_range job.episode job.num_workers i
                (record (job.links i) { to_master = q; handler = entered }) job.links ps b'.workers
                v.all_links
                (λ j ne. ap (λ x. get_elem? x j) set ∙ get_elem?-set_phase_other i j waiting ps ne)
                (subst
                  (λ p.
                    LinkOk job.part_range job.episode p i
                      (record (job.links i) { to_master = q; handler = entered }))
                  (sym at_i)
                  (join-LinkOk job.part_range job.episode i (get_elem? ps i) (some waiting)
                    (job.links i) s q (v.all_links i i_lt) here
                    (is_outside-numbers (get_elem? ps i) out) (refl, refl, refl))),
          )
