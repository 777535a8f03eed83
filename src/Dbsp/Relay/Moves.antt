-- ===== src/Dbsp/Relay/Moves.antt =====
-- dbspgraph/: what the events do to the link of one worker.
use mathlib.Core.Path.{subst}
use etherscan.Base.{
  ℕ, ◌+◌, ◌≤◌, ◌≡◌, refl, sym, true, false, Option, List, [], ◌∷◌, ◌++◌, arith, inl, inr, ◌%◌,
}
use etherscan.Base.Text.{Text}
use etherscan.Partition.Range.{Range}
use etherscan.Dbsp.Barrier.{Phase}
use etherscan.Dbsp.Relay.{RelayMessage, Payload, relay_message, step, entered, Link, send_to_worker}
use etherscan.Dbsp.Relay.Numbering.{joined_in, waits_in, left_in}
use etherscan.Dbsp.Relay.Links.{
  count_steps, answers, in_wait, IsFor, Outgoing, LinkOk, Timed-relay, Timed-raise,
  count_steps-relay, Outgoing-relay, Outgoing-step,
}

module _ {M W S : Type 0} (r : Range) (e i : ℕ) where
  -- A worker that runs has nothing of a barrier under way.
  pub running-settled :
      (p : Option (Phase S)) (l : Link M W S)
      → LinkOk r e p i l
      → l.blocked ≡ false
      → count_steps l.to_worker + answers l.handler + in_wait l.handler ≡ 0
  running-settled p l v up = elim v.settled [
    | inl idle ↦ idle
    | inr (stuck, _) ↦ absurd (ground (arith, stuck, up))
  ]

  pub relay-LinkOk :
      (p : Option (Phase S)) (l : Link M W S) (dst : Text) (w : W)
      → LinkOk r e p i l
      → l.blocked ≡ false
      → l.passed % 3 ≡ 1
      → LinkOk r e p i (record l {
        to_master =
            l.to_master
            ++ relay_message (record { destination = dst; message = w; sent_in = l.passed }) ∷ [];
      })
  relay-LinkOk p l dst w v up computes = record {
    numbers = v.numbers;
    waiting_too = v.waiting_too;
    outgoing =
        subst
          (λ b. Outgoing l.passed b (
            l.to_master
            ++ relay_message (record { destination = dst; message = w; sent_in = l.passed }) ∷ []))
          (sym up)
          (Outgoing-relay l.passed (record { destination = dst; message = w; sent_in = l.passed })
            l.to_master refl computes (subst (λ b. Outgoing l.passed b l.to_master) up v.outgoing));
    incoming = v.incoming;
    single = v.single;
    settled = inl (running-settled p l v up);
    timely = v.timely;
  }

  pub enter-LinkOk :
      (p : Option (Phase S)) (l : Link M W S) (s : S)
      → LinkOk r e p i l
      → l.blocked ≡ false
      → LinkOk r e p i (record l { to_master = l.to_master ++ step s ∷ []; blocked = true })
  enter-LinkOk p l s v up = record {
    numbers = v.numbers;
    waiting_too = v.waiting_too;
    outgoing =
        Outgoing-step l.passed s l.to_master
          (subst (λ b. Outgoing l.passed b l.to_master) up v.outgoing);
    incoming = v.incoming;
    single = v.single;
    settled = inl (running-settled p l v up);
    timely = v.timely;
  }

  -- The master takes a payload of a worker whose handler is at its receive.
  pub taking-settled :
      (p : Option (Phase S)) (l : Link M W S) (x : Payload W S) (q : List (Payload W S))
      → LinkOk r e p i l
      → l.to_master ≡ x ∷ q
      → count_steps l.to_worker + answers l.handler + in_wait l.handler ≡ 0
  taking-settled p l x q v here = elim v.settled [
    | inl idle ↦ idle
    | inr (_, gone) ↦ absurd (ground (arith, here, gone))
  ]

  pub take-LinkOk :
      (p : Option (Phase S)) (l : Link M W S) (m : RelayMessage W) (q : List (Payload W S))
      → LinkOk r e p i l
      → l.to_master ≡ relay_message m ∷ q
      → (m.sent_in ≡ l.passed) × (m.sent_in % 3 ≡ 1) × LinkOk r e p i (record l { to_master = q })
  take-LinkOk p l m q v here =
      let (now, computes, rest) = subst (Outgoing l.passed l.blocked) here v.outgoing in
      (
        now,
        computes,
        record {
          numbers = v.numbers;
          waiting_too = v.waiting_too;
          outgoing = rest;
          incoming = v.incoming;
          single = v.single;
          settled = inl (taking-settled p l (relay_message m) q v here);
          timely = v.timely;
        },
      )

  pub forward-LinkOk :
      (p : Option (Phase S)) (l : Link M W S) (m : RelayMessage W)
      → LinkOk r e p i l
      → l.passed + count_steps l.to_worker ≤ m.sent_in
      → m.sent_in ≤ e + joined_in p
      → IsFor r i m
      → LinkOk r e p i (send_to_worker (relay_message m) l)
  unfolding send_to_worker
  forward-LinkOk p l m v low high fits = record {
    numbers = omega (arith, v.numbers, count_steps-relay m l.to_worker);
    waiting_too = v.waiting_too;
    outgoing = v.outgoing;
    incoming = Timed-relay r i l.passed (e + joined_in p) m l.to_worker v.incoming low high fits;
    single = omega (arith, v.single, count_steps-relay m l.to_worker);
    settled = elim v.settled [
      | inl idle ↦ inl (omega (arith, idle, count_steps-relay m l.to_worker))
      | inr gone ↦ inr gone
    ];
    timely = v.timely;
  }

  -- The step of a worker is the last of its payloads, and the worker waits for the answer.
  pub join-LinkOk :
      (p p' : Option (Phase S)) (l : Link M W S) (s : S) (q : List (Payload W S))
      → LinkOk r e p i l
      → l.to_master ≡ step s ∷ q
      → (left_in p ≡ 0) × (joined_in p ≡ 0)
      → (left_in p' ≡ 0) × (joined_in p' ≡ 1) × (waits_in p' ≡ 1)
      → LinkOk r e p' i (record l { to_master = q; handler = entered })
  join-LinkOk p p' l s q v here (left, joined) (left', joined', waits') =
      let (stuck, last) = subst (Outgoing l.passed l.blocked) here v.outgoing in
      let idle = taking-settled p l (step s) q v here in
      record {
        numbers = omega (arith, v.numbers, idle, left, left');
        waiting_too = omega (arith, waits');
        outgoing = subst (Outgoing l.passed l.blocked) (sym last) tt;
        incoming =
            Timed-raise r i l.passed (e + joined_in p) (e + joined_in p') l.to_worker
              (omega (arith, joined, joined')) v.incoming;
        single = omega (arith, idle);
        settled = inr (stuck, last);
        timely = v.timely;
      }
