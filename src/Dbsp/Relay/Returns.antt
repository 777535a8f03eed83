-- ===== src/Dbsp/Relay/Returns.antt =====
-- dbspgraph/: the way back of a step, from the master to a worker, on the link between them.
use mathlib.Core.Path.{subst}
use etherscan.Base.{
  ℕ, suc, ◌+◌, ◌<◌, ◌≡◌, sym, ap, true, false, Option, List, [], ◌∷◌, arith, inl, inr,
}
use etherscan.Partition.Range.{Range}
use etherscan.Dbsp.Barrier.{Phase}
use etherscan.Dbsp.Relay.{
  RelayMessage, Payload, relay_message, step, receiving, answering, Link, send_to_worker,
}
use etherscan.Dbsp.Relay.Numbering.{joined_in, waits_in, left_in, joined_in-split}
use etherscan.Dbsp.Relay.Links.{
  count_steps, answers, in_wait, Timed, Outgoing, LinkOk, Timed-step, Timed-raise, count_steps-step,
}

module _ {M W S : Type 0} (r : Range) (e i : ℕ) where
  -- A worker whose handler is in Wait, or has an answer to send, is blocked and has nothing under way.
  busy-settled :
      (p : Option (Phase S)) (l : Link M W S)
      → LinkOk r e p i l
      → 0 < count_steps l.to_worker + answers l.handler + in_wait l.handler
      → (l.blocked ≡ true) × (l.to_master ≡ [])
  busy-settled p l v busy = elim v.settled [
    | inl idle ↦ absurd (omega (arith, idle, busy))
    | inr gone ↦ gone
  ]

  pub notify-LinkOk :
      (p p' : Option (Phase S)) (l : Link M W S) (s : S)
      → LinkOk r e p i l
      → (left_in p ≡ 0) × (joined_in p ≡ 1) × (waits_in p ≡ 1)
      → (left_in p' ≡ 1) × (joined_in p' ≡ 1) × (waits_in p' ≡ 0)
      → LinkOk r e p' i (record l { handler = answering s })
  notify-LinkOk p p' l s v (left, joined, waits) (left', joined', waits') =
      let waiting_now : in_wait l.handler ≡ 1 = omega (arith, v.waiting_too, waits) in
      record {
        numbers = omega (arith, v.numbers, v.single, waiting_now, left, left');
        waiting_too = omega (arith, waits');
        outgoing = v.outgoing;
        incoming =
            Timed-raise r i l.passed (e + joined_in p) (e + joined_in p') l.to_worker
              (omega (arith, joined, joined')) v.incoming;
        single = omega (arith, v.single, waiting_now);
        settled = inr (busy-settled p l v (omega (arith, waiting_now)));
        timely = v.timely;
      }

  pub answer-LinkOk :
      (p : Option (Phase S)) (l : Link M W S) (s s' : S)
      → LinkOk r e p i l
      → l.handler ≡ answering s'
      → LinkOk r e p i (record (send_to_worker (step s) l) { handler = receiving })
  unfolding send_to_worker
  answer-LinkOk p l s s' v here =
      let one : answers l.handler ≡ 1 = ap answers here in
      let none_in : in_wait l.handler ≡ 0 = ap in_wait here in
      record {
        numbers = omega (arith, v.numbers, one, count_steps-step s l.to_worker);
        waiting_too = omega (arith, v.waiting_too, none_in);
        outgoing = v.outgoing;
        incoming = Timed-step r i l.passed (e + joined_in p) s l.to_worker v.incoming;
        single = omega (arith, v.single, one, none_in, count_steps-step s l.to_worker);
        settled = inr (busy-settled p l v (omega (arith, one)));
        timely = v.timely;
      }

  pub resume-LinkOk :
      (p : Option (Phase S)) (l : Link M W S) (s : S) (q : List (Payload W S))
      → LinkOk r e p i l
      → l.to_worker ≡ step s ∷ q
      → LinkOk r e p i (record l { to_worker = q; blocked = false; passed = suc l.passed })
  resume-LinkOk p l s q v here =
      let count : count_steps l.to_worker ≡ suc (count_steps q) = ap count_steps here in
      let (_, empty) = busy-settled p l v (omega (arith, count)) in
      record {
        numbers = omega (arith, v.numbers, count);
        waiting_too = v.waiting_too;
        outgoing = subst (Outgoing (suc l.passed) false) (sym empty) tt;
        incoming = subst (Timed r i l.passed (e + joined_in p)) here v.incoming;
        single = omega (arith, v.single, count);
        settled = inl (omega (arith, v.single, count));
        timely = v.timely;
      }

  pub deliver-LinkOk :
      (p : Option (Phase S)) (l : Link M W S) (m : RelayMessage W) (msg : M)
      (q : List (Payload W S))
      → LinkOk r e p i l
      → l.to_worker ≡ relay_message m ∷ q
      → LinkOk r e p i (record l {
        to_worker = q;
        delivered = record { relayed = m; message = msg; at = l.passed } ∷ l.delivered;
      })
  deliver-LinkOk p l m msg q v here =
      let (low, high, (computes, mine), rest) =
        subst (Timed r i l.passed (e + joined_in p)) here v.incoming in
      let count : count_steps l.to_worker ≡ count_steps q = ap count_steps here in
      record {
        numbers = omega (arith, v.numbers, count);
        waiting_too = v.waiting_too;
        outgoing = v.outgoing;
        incoming = rest;
        single = omega (arith, v.single, count);
        settled = elim v.settled [
          | inl idle ↦ inl (omega (arith, idle, count))
          | inr gone ↦ inr gone
        ];
        timely = (
          (
            omega
                (arith, low, high, computes, v.numbers, v.single, v.waiting_too, joined_in-split p),
            mine,
          ),
          v.timely,
        );
      }
