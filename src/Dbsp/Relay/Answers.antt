-- ===== src/Dbsp/Relay/Answers.antt =====
-- dbspgraph/: what the barriers and the answers of the master keep of a job.
use mathlib.Core.Path.{subst}
use etherscan.Base.{
  ℕ, suc, ◌+◌, ◌<◌, ◌≡◌, refl, sym, ap, ◌∙◌, Bool, true, false, Option, none, some, List, [], ◌∷◌,
  length, get_elem?, arith, if◌then◌else◌,
}
use etherscan.Base.Events.{Keeps}
use etherscan.Dbsp.Barrier
use etherscan.Dbsp.Barrier.{
  Phase, outside, waiting, returned, MasterStepBarrier, set_phase, is_outside, is_waiting,
  outsiders, join, new_master_step_barrier, collect_step, notify_worker,
}
use etherscan.Dbsp.Barrier.Safety.{fire-IsInStep, new-IsInStep, notify_worker-inversion}
use etherscan.Dbsp.Relay.{
  Payload, relay_message, step, Handler, receiving, entered, answering, Link, Job, send_to_worker,
  handle_payload, notify_handler, send_answer, with_link,
}
use etherscan.Dbsp.Relay.Numbering.{
  joined_in, joined_in-le, all_left, get_elem?-set_phase_self, get_elem?-set_phase_other,
  is_waiting-numbers, outsiders-numbers,
}
use etherscan.Dbsp.Relay.Returns.{notify-LinkOk, answer-LinkOk}
use etherscan.Dbsp.Relay.Links.{LinkOk, Timed-raise}
use etherscan.Dbsp.Relay.Jobs.{
  JobOk, update-LinkOk, set_link-JobOk, handle_relay-Keeps, with_barrier-Keeps, handle_step-Keeps,
}

module _ {M W S : Type 0} where
  pub notify_handler-Keeps :
      (i : ℕ) (s : S) (job : Job M W S)
      → JobOk job
      → i < job.num_workers
      → (answer : List S → S) → answer job.barrier.collected_steps ≡ s
      → Keeps JobOk (notify_handler i s job)
  unfolding notify_handler Barrier.fire
  notify_handler-Keeps i s job v i_lt master_step made =
      with_barrier-Keeps i (record (job.links i) { handler = answering s })
        (notify_worker s i job.barrier) job
        λ b' h.
          let (_, _, wait, same) = notify_worker-inversion i s job.barrier b' h in
          let ps = job.barrier.workers in
          let set : b'.workers ≡ set_phase i (returned s) ps = sym (ap (λ x. x.workers) same) in
          let i_in : i < length ps = omega (arith, i_lt, v.in_step.all_workers) in
          let at_i : get_elem? b'.workers i ≡ some (returned s) =
            ap (λ x. get_elem? x i) set ∙ get_elem?-set_phase_self i (returned s) ps i_in in
          (
            fire-IsInStep job.num_workers (λ ss. s) (Barrier.notify i) job.barrier b' h v.in_step,
            update-LinkOk job.part_range job.episode job.num_workers i
                (record (job.links i) { handler = answering s }) job.links ps b'.workers v.all_links
                (λ j ne.
                  ap (λ x. get_elem? x j) set ∙ get_elem?-set_phase_other i j (returned s) ps ne)
                (subst
                  (λ p.
                    LinkOk job.part_range job.episode p i
                      (record (job.links i) { handler = answering s }))
                  (sym at_i)
                  (notify-LinkOk job.part_range job.episode i (get_elem? ps i) (some (returned s))
                    (job.links i) s (v.all_links i i_lt) (is_waiting-numbers (get_elem? ps i) wait)
                    (refl, refl, refl))),
          )

  pub handle_payload-Keeps :
      (i : ℕ) (q : List (Payload W S)) (h : Handler S) (job : Job M W S)
      → JobOk job
      → i < job.num_workers
      → (job.links i).to_master ≡ q
      → Keeps JobOk (handle_payload i q h job)
  unfolding handle_payload
  handle_payload-Keeps i (relay_message m ∷ q) receiving job v i_lt here =
      handle_relay-Keeps i m q job v i_lt here
  handle_payload-Keeps i (step s ∷ q) receiving job v i_lt here =
      handle_step-Keeps i s q job v i_lt here
  handle_payload-Keeps i [] h job v i_lt here = tt
  handle_payload-Keeps i (relay_message m ∷ q) entered job v i_lt here = tt
  handle_payload-Keeps i (relay_message m ∷ q) (answering s) job v i_lt here = tt
  handle_payload-Keeps i (step s ∷ q) entered job v i_lt here = tt
  handle_payload-Keeps i (step s ∷ q) (answering s') job v i_lt here = tt

  pub send_answer-Keeps :
      (i : ℕ) (h : Handler S) (job : Job M W S)
      → JobOk job
      → i < job.num_workers
      → (job.links i).handler ≡ h
      → Keeps JobOk (send_answer i h job)
  unfolding send_answer
  send_answer-Keeps i receiving job v i_lt here = tt
  send_answer-Keeps i entered job v i_lt here = tt
  send_answer-Keeps i (answering s) job v i_lt here =
      set_link-JobOk i (record (send_to_worker (step s) (job.links i)) { handler = receiving }) job
        v
        (answer-LinkOk job.part_range job.episode i (get_elem? job.barrier.workers i) (job.links i)
          s s (v.all_links i i_lt) here)

  -- The master goes on when every worker has been notified.
  pub next_barrier-JobOk :
      (job : Job M W S)
      → JobOk job
      → job.barrier.notified ≡ job.num_workers
      → JobOk (record job {
        barrier = new_master_step_barrier job.num_workers;
        episode = suc job.episode;
      })
  unfolding new_master_step_barrier
  next_barrier-JobOk job v done = record {
    in_step = new-IsInStep job.num_workers;
    all_links = λ j lt.
        let (left, free) =
          all_left job.barrier.workers j
            (omega (arith, v.in_step.left, v.in_step.all_workers, done))
            (omega (arith, v.in_step.all_workers, lt)) in
        let (left', joined', free') = outsiders-numbers S job.num_workers j in
        let l = v.all_links j lt in
        let p = get_elem? job.barrier.workers j in
        let p' = get_elem? (outsiders {S = S} job.num_workers) j in
        record {
          numbers = omega (arith, l.numbers, left, left');
          waiting_too = omega (arith, l.waiting_too, free, free');
          outgoing = l.outgoing;
          incoming =
              Timed-raise job.part_range j (job.links j).passed (job.episode + joined_in p)
                (suc job.episode + joined_in p') (job.links j).to_worker
                (omega (arith, joined_in-le p, joined')) l.incoming;
          single = l.single;
          settled = l.settled;
          timely = l.timely;
        };
  }

  abbrev pub GoodLink : ℕ → Job M W S → Link M W S → Type 0
  GoodLink i job l = LinkOk job.part_range job.episode (get_elem? job.barrier.workers i) i l

  pub with_link-Keeps :
      (i : ℕ) (m : Option (Link M W S)) (job : Job M W S)
      → JobOk job
      → Keeps (GoodLink i job) m
      → Keeps JobOk (with_link i m job)
  with_link-Keeps i none job v h = tt
  with_link-Keeps i (some l) job v h = set_link-JobOk i l job v h

  pub unless-KeepsLink :
      (i : ℕ) (job : Job M W S) (b : Bool) (m : Option (Link M W S))
      → (b ≡ false → Keeps (GoodLink i job) m)
      → Keeps (GoodLink i job) (if b then none else m)
  unless-KeepsLink i job true m h = tt
  unless-KeepsLink i job false m h = h refl
