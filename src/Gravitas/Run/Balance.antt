-- ===== src/Gravitas/Run/Balance.antt =====
-- gravitas/: the scores of a run are the balances of the wallets.
use mathlib.Core.Path.{subst}
use mathlib.Core.Option
use etherscan.Base.{
  ℕ, ◌+◌, ◌≤◌, ◌≡◌, sym, ap, ◌∙◌, Option, none, some, List, [], arith, if◌then◌else◌, Bool-cases,
  inl, inr, ℤ, pos, nat_abs, ◌+ℤ◌, ◌-ℤ◌, -ℤ_nat_abs, zero_+ℤ, +ℤ_swap, +ℤ_negated,
}
use etherscan.Base.Text.{Text, text_eq}
use etherscan.Base.Map.{Map, keys, lookup}
use etherscan.Base.Member.{Distinct, member-keys}
use etherscan.Base.Sums.{sum_of_same}
use etherscan.Bsp.Queue.{InMemoryQueue, pending_messages}
use etherscan.Bsp.Queue.Lifo.{pending_messages_iff}
use etherscan.Bsp.Errors.{Error}
use etherscan.TxGraph.Types.{Tx}
use etherscan.Gravitas.Float.{BigFloat, exact_limit}
use etherscan.Gravitas.Compute.{TxMessage, ScoreGraph, ScoreVertex}
use etherscan.Gravitas.Calculator.{Calculator, calculate}
use etherscan.Gravitas.Run.Vertex.{spent}
use etherscan.Gravitas.Run.Counting.{IsFresh}
use etherscan.Gravitas.Run.Sent.{incoming_all}
use etherscan.Gravitas.Run.Collecting.{collect}
use etherscan.Gravitas.Run.Done.{scored}
use etherscan.Gravitas.Run.Whole.{IsFair, IsOrder, outbox_of}
use etherscan.Gravitas.Run.Scores.{IsClosed, calculate_finishes}
use etherscan.Gravitas.Run.Amounts.{
  sent_weight, sent_to, cost, cost_weight, cost_bound, earned, earned_weight,
}
use etherscan.Gravitas.Run.Exact.{spent_is, gather, incoming_all_is}

module _ (fl : BigFloat) where
  open fl use {Carrier, zero_float, set, sub, Is, zero_is, set_is, sub_is}

  -- The order of the list does not matter.
  earned_order :
      (m : Map Text (ScoreVertex Carrier)) (is : List Text) (k : Text)
      → Distinct (keys m)
      → IsOrder fl is m
      → (earned (outbox_of fl m) k is ≡ earned (outbox_of fl m) k (keys m))
        × (earned_weight (outbox_of fl m) k is ≡ earned_weight (outbox_of fl m) k (keys m))
  earned_order m is k once order =
      let same = λ (a : Text). order.lists a ∙ sym (member-keys a m) in
      (
        sum_of_same ◌+ℤ◌ (pos 0) +ℤ_swap (λ i. sent_to k (outbox_of fl m i)) is (keys m)
            order.distinct once same,
        sum_of_same ◌+◌ 0 (λ a b c. omega arith) (λ i. sent_weight k (outbox_of fl m i)) is (keys m)
            order.distinct once same,
      )

  -- The value after superstep 1.
  abbrev after_costs : ScoreVertex Carrier → Carrier
  after_costs v = sub v.value.value (spent fl v.value.txs)

  -- What superstep 2 makes of it.
  abbrev with_messages : Carrier → List (TxMessage Carrier) → Carrier
  with_messages x msgs =
      if pending_messages (record { msgs = msgs; latched_msg = none })
      then gather fl (set x) msgs
      else x

  value-scored_empty :
      (msgs : List (TxMessage Carrier)) (v : ScoreVertex Carrier)
      → (scored fl msgs
          (record v { queue0 = record { msgs = []; latched_msg = none } })).value.value
        ≡ with_messages (after_costs v) msgs
  unfolding scored collect
  value-scored_empty msgs v = ground arith

  pub id-scored :
      (msgs : List (TxMessage Carrier)) (v : ScoreVertex Carrier) → (scored fl msgs v).id ≡ v.id
  unfolding scored collect
  id-scored msgs v = ground arith

  value-scored :
      (msgs : List (TxMessage Carrier)) (v : ScoreVertex Carrier)
      → v.queue0 ≡ record { msgs = []; latched_msg = none }
      → (scored fl msgs v).value.value ≡ with_messages (after_costs v) msgs
  value-scored msgs v empty =
      ap
        (λ (q : InMemoryQueue (TxMessage Carrier)).
          (scored fl msgs (record v { queue0 = q })).value.value)
        empty
      ∙ value-scored_empty msgs v

  -- The bound on what moves through a vertex, so that all sums are exact.
  abbrev pub IsSmall : Map Text (ScoreVertex Carrier) → Text → ScoreVertex Carrier → Type 0
  IsSmall m k v = cost_weight v.value.txs + earned_weight (outbox_of fl m) k (keys m) ≤ exact_limit

  after_costs_is :
      (v : ScoreVertex Carrier)
      → v.value.value ≡ zero_float
      → cost_weight v.value.txs ≤ exact_limit
      → Is (after_costs v) (pos 0 -ℤ cost v.value.txs)
  after_costs_is v new small =
      let c = cost v.value.txs in
      sub_is v.value.value (spent fl v.value.txs) (pos 0) c
        (omega (arith, -ℤ_nat_abs (pos 0) c, cost_bound v.value.txs))
        (subst (λ x. Is x (pos 0)) (sym new) zero_is)
        (subst (Is (spent fl v.value.txs)) (zero_+ℤ c)
          (spent_is fl v.value.txs zero_float (pos 0) (omega arith) zero_is))

  with_messages_is :
      (outbox : Text → List Tx) (k : Text) (is : List Text) (x : Carrier) (a : ℤ)
      → nat_abs a + earned_weight outbox k is ≤ exact_limit
      → Is x a
      → Is (with_messages x (incoming_all fl outbox k is)) (earned outbox k is +ℤ a)
  with_messages_is outbox k is x a small it =
      let msgs = incoming_all fl outbox k is in
      let q : (InMemoryQueue (TxMessage Carrier)) = record { msgs = msgs; latched_msg = none } in
      elim (Bool-cases (pending_messages q)) [
        | inl some_msg ↦
            rw some_msg
              (incoming_all_is fl outbox k is (set x) a small (set_is x a (omega arith) it))
        | inr no_msg ↦ rw no_msg (
            subst (λ (ms : List (TxMessage Carrier)). Is (gather fl x ms) (earned outbox k is +ℤ a))
              ((pending_messages_iff q).0 no_msg) (incoming_all_is fl outbox k is x a small it))
      ]

  -- The score of a vertex after a run in the order `is`.
  pub scored_is :
      (m : Map Text (ScoreVertex Carrier)) (is : List Text) (k : Text) (v : ScoreVertex Carrier)
      → Distinct (keys m)
      → IsOrder fl is m
      → v.queue0 ≡ record { msgs = []; latched_msg = none }
      → v.value.value ≡ zero_float
      → IsSmall m k v
      → Is
          (scored fl (incoming_all fl (outbox_of fl m) k is) v).value.value
          (earned (outbox_of fl m) k (keys m) -ℤ cost v.value.txs)
  scored_is m is k v once order empty new small =
      let out = outbox_of fl m in
      let c = cost v.value.txs in
      let (sum, weight) = earned_order m is k once order in
      subst (λ x. Is x (earned out k (keys m) -ℤ c))
        (sym (value-scored (incoming_all fl out k is) v empty))
        (subst (Is (with_messages (after_costs v) (incoming_all fl out k is)))
          (ap (λ (e : ℤ). e +ℤ (pos 0 -ℤ c)) sum ∙ +ℤ_negated (earned out k (keys m)) c)
          (with_messages_is out k is (after_costs v) (pos 0 -ℤ c)
            (omega (arith, weight, -ℤ_nat_abs (pos 0) c, cost_bound v.value.txs))
            (after_costs_is v new (omega arith))))

  -- In a run of a calculator whose vertices are as AddVertex leaves them, with the value 0, and whose
  -- transactions stay among them, every wallet ends with what it received from all wallets less the
  -- values and the fees of its own transactions. Fuel 4 is enough, and the order in which the workers
  -- take the vertices does not matter. The context must not expire, the map must have each key once
  -- and the schedule each vertex once, and what moves through the wallet must have at most 53 bits.
  pub calculate_balances :
      (fuel : ℕ) (ctx_err : ℕ → Option Error) (schedule : ScoreGraph Carrier → List Text)
      (c : Calculator Carrier) (k : Text) (v : ScoreVertex Carrier)
      → 4 ≤ fuel
      → ((s : ℕ) → ctx_err s ≡ none)
      → IsFair schedule
      → Distinct (keys c.g.vertices)
      → IsFresh fl c.g.vertices
      → IsClosed fl c.g.vertices
      → lookup k c.g.vertices ≡ some v
      → v.value.value ≡ zero_float
      → IsSmall c.g.vertices k v
      → (g' : ScoreGraph Carrier) × (w : ScoreVertex Carrier) × (calculate fl fuel ctx_err schedule
            c
          ≡ some (none, g'))
        × (lookup k g'.vertices ≡ some w)
        × Is w.value.value
            (earned (outbox_of fl c.g.vertices) k (keys c.g.vertices) -ℤ cost v.value.txs)
  calculate_balances fuel ctx_err schedule c k v enough live fair once fresh closed found new
        small =
      let m = c.g.vertices in
      let (is, g', ran) =
        calculate_finishes fl fuel ctx_err schedule c enough live fair fresh closed in
      (
        g',
        scored fl (incoming_all fl (outbox_of fl m) k is) v,
        ran.finished,
        ran.at_vertex k ∙ ap (Option.map (scored fl (incoming_all fl (outbox_of fl m) k is))) found,
        scored_is m is k v once ran.order (fresh k v found).1 new small,
      )
