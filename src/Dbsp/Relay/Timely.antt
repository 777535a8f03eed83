-- ===== src/Dbsp/Relay/Timely.antt =====
-- dbspgraph/: a relayed message reaches the graph of its destination in the superstep in which it was sent.
use etherscan.Base.{
  ℕ, suc, ◌<◌, ◌≤◌, ◌≡◌, refl, true, not, ◌&&◌, some, List, [], ◌∷◌, ◌++◌, get_elem?, nat_eqb, ltb,
  arith, inl, ◌%◌, All,
}
use etherscan.Base.Events.{Keeps, if-Keeps, run_events-Keeps}
use etherscan.Base.Text.{Text}
use etherscan.Partition.Range.{Range}
use etherscan.Rpc.Streams.{ok, error}
use etherscan.Dbsp.Barrier.{new_master_step_barrier}
use etherscan.Dbsp.Barrier.Safety.{new-IsInStep}
use etherscan.Dbsp.Relay.{
  MessageSerializer, Payload, relay_message, step, Job, Event, relay, enter, handle, notify, answer,
  next_barrier, receive, worker_of, relay_non_local_message, enter_barrier, set_link,
  receive_payload, with_link, happen, fire, fire_all, new_job,
}
use etherscan.Dbsp.Relay.Numbering.{joined_in-split, joined_in-le, outsiders-numbers}
use etherscan.Dbsp.Relay.Moves.{relay-LinkOk, enter-LinkOk}
use etherscan.Dbsp.Relay.Returns.{resume-LinkOk, deliver-LinkOk}
use etherscan.Dbsp.Relay.Links.{IsTimely}
use etherscan.Dbsp.Relay.Jobs.{JobOk, set_link-JobOk, cancel-JobOk}
use etherscan.Dbsp.Relay.Answers.{
  notify_handler-Keeps, handle_payload-Keeps, send_answer-Keeps, next_barrier-JobOk,
  with_link-Keeps, unless-KeepsLink, GoodLink,
}

module _ {M W S E : Type 0} (serializer : MessageSerializer M W E) where
  receive_payload-Keeps :
      (i : ℕ) (q : List (Payload W S)) (job : Job M W S)
      → JobOk job
      → i < job.num_workers
      → (job.links i).to_worker ≡ q
      → Keeps JobOk (receive_payload serializer i q job)
  unfolding receive_payload
  receive_payload-Keeps i [] job v i_lt here = tt
  receive_payload-Keeps i (step s ∷ q) job v i_lt here = if-Keeps JobOk (job.links i).blocked _ λ _.
      set_link-JobOk i _ job v (
        resume-LinkOk job.part_range job.episode i (get_elem? job.barrier.workers i) (job.links i) s
          q (v.all_links i i_lt) here)
  receive_payload-Keeps i (relay_message m ∷ q) job v i_lt here =
      elim (serializer.unserialize m.message)
        as (λ x. Keeps JobOk (elim x [
          | error e ↦ some (record job { cancelled = true })
          | ok msg ↦ some (
              set_link i
                (record (job.links i) {
                  to_worker = q;
                  delivered =
                      record { relayed = m; message = msg; at = (job.links i).passed }
                      ∷ (job.links i).delivered;
                })
                job)
        ])) [
          | error e ↦ cancel-JobOk job v
          | ok msg ↦ set_link-JobOk i _ job v (
              deliver-LinkOk job.part_range job.episode i (get_elem? job.barrier.workers i)
                (job.links i) m msg q (v.all_links i i_lt) here)
        ]

  relay-Keeps :
      (i : ℕ) (dst : Text) (msg : M) (job : Job M W S)
      → JobOk job
      → i < job.num_workers
      → Keeps JobOk (with_link i (relay_non_local_message serializer i dst msg (job.links i)) job)
  unfolding relay_non_local_message
  relay-Keeps i dst msg job v i_lt =
      let l = job.links i in
      let p = get_elem? job.barrier.workers i in
      with_link-Keeps i (relay_non_local_message serializer i dst msg l) job v (
        if-Keeps (GoodLink i job) (not l.blocked && nat_eqb (l.passed % 3) 1) _ λ h.
          elim (serializer.serialize msg)
            as (λ x. Keeps (GoodLink i job) (elim x [
              | error e ↦ some l
              | ok w ↦ some (record l {
                to_master =
                    l.to_master
                    ++ relay_message (record { destination = dst; message = w; sent_in = l.passed })
                      ∷ [];
              })
            ])) [
              | error e ↦ v.all_links i i_lt
              | ok w ↦
                  relay-LinkOk job.part_range job.episode i p l dst w (v.all_links i i_lt)
                    (ground (arith, h)) (ground (arith, h))
            ])

  enter-Keeps :
      (i : ℕ) (s : S) (job : Job M W S)
      → JobOk job
      → i < job.num_workers
      → Keeps JobOk (with_link i (enter_barrier s (job.links i)) job)
  unfolding enter_barrier
  enter-Keeps i s job v i_lt = with_link-Keeps i (enter_barrier s (job.links i)) job v (
      unless-KeepsLink i job (job.links i).blocked _ (
        enter-LinkOk job.part_range job.episode i (get_elem? job.barrier.workers i) (job.links i) s
          (v.all_links i i_lt)))

  happen-Keeps :
      (master_step : List S → S) (e : Event M S) (job : Job M W S)
      → JobOk job
      → worker_of e < job.num_workers
      → Keeps JobOk (happen serializer master_step e job)
  unfolding happen
  happen-Keeps master_step (relay i dst msg) job v i_lt = relay-Keeps i dst msg job v i_lt
  happen-Keeps master_step (enter i s) job v i_lt = enter-Keeps i s job v i_lt
  happen-Keeps master_step (handle i) job v i_lt =
      handle_payload-Keeps i (job.links i).to_master (job.links i).handler job v i_lt refl
  happen-Keeps master_step (notify i) job v i_lt =
      notify_handler-Keeps i (master_step job.barrier.collected_steps) job v i_lt master_step refl
  happen-Keeps master_step (answer i) job v i_lt =
      send_answer-Keeps i (job.links i).handler job v i_lt refl
  happen-Keeps master_step next_barrier job v i_lt =
      if-Keeps JobOk (nat_eqb job.barrier.notified job.num_workers) _
        λ done. next_barrier-JobOk job v (ground (arith, done))
  happen-Keeps master_step (receive i) job v i_lt =
      receive_payload-Keeps i (job.links i).to_worker job v i_lt refl

  fire-Keeps :
      (master_step : List S → S) (e : Event M S) (job : Job M W S)
      → JobOk job
      → Keeps JobOk (fire serializer master_step e job)
  unfolding fire
  fire-Keeps master_step e job v =
      if-Keeps JobOk (not job.cancelled && ltb (worker_of e) job.num_workers)
        (happen serializer master_step e job)
        (λ h. happen-Keeps master_step e job v (ground (arith, h)))

new_job-JobOk : (M W S : Type 0) (n : ℕ) (r : Range) → JobOk (new_job {M = M} {W = W} {S = S} n r)
unfolding new_job new_master_step_barrier
new_job-JobOk M W S n r = record {
  in_step = new-IsInStep n;
  all_links = λ j lt.
      let (left, joined, free) = outsiders-numbers S n j in
      record {
        numbers = omega (arith, left);
        waiting_too = omega (arith, free);
        outgoing = tt;
        incoming = tt;
        single = omega arith;
        settled = inl refl;
        timely = tt;
      };
}

-- After any events of a job, every message that has reached the graph of worker `j` was sent in the same
-- superstep (three barriers each) in which it arrived, and the partition of worker `j` has its address;
-- and no worker has left more barriers than the master has held.
pub fire_all-IsTimely :
    {M W S E : Type 0} (serializer : MessageSerializer M W E) (master_step : List S → S) (n : ℕ)
    (r : Range) (es : List (Event M S)) (job : Job M W S) (j : ℕ)
    → fire_all serializer master_step es (new_job n r) ≡ some job
    → j < job.num_workers
    → All (IsTimely job.part_range j) (job.links j).delivered
      × ((job.links j).passed ≤ suc job.episode)
unfolding fire_all
fire_all-IsTimely {M} {W} {S} serializer master_step n r es job j h lt =
    let v =
      run_events-Keeps (fire serializer master_step) JobOk es (new_job n r) job
        (fire-Keeps serializer master_step) h (new_job-JobOk M W S n r) in
    let l = v.all_links j lt in
    let p = get_elem? job.barrier.workers j in
    (l.timely, omega (arith, l.numbers, joined_in-split p, joined_in-le p))
