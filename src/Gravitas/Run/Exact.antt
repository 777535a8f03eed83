-- ===== src/Gravitas/Run/Exact.antt =====
-- gravitas/compute.go: the sums of the compute function are exact as long as they have at most 53
-- bits.
use mathlib.Core.Path.{subst}
use mathlib.Core.List.{foldl, reverse, reverse-append, foldl-append}
use etherscan.Base.{
  ◌+◌, ◌≤◌, ◌≡◌, sym, ap, ◌∙◌, List, [], ◌∷◌, ◌++◌, arith, ◌==◌, Bool-cases, inl, inr, ℤ, pos,
  nat_abs, ◌+ℤ◌, +ℤ_nat_abs, +ℤ_assoc, +ℤ_comm, +ℤ_zero, zero_+ℤ,
}
use etherscan.Base.Text.{Text, text_eq}
use etherscan.Bsp.Queue.Lifo.{reverse-cons}
use etherscan.TxGraph.Types.{Tx}
use etherscan.Gravitas.Float.{BigFloat, exact_limit}
use etherscan.Gravitas.Compute.{TxMessage, add_tx, add_message}
use etherscan.Gravitas.Run.Mailbox.{message_of, incoming}
use etherscan.Gravitas.Run.Sent.{incoming_all}
use etherscan.Gravitas.Run.Amounts.{
  cost, cost_weight, sent_to, sent_weight, sent_to_bound, earned, earned_weight, earned_bound,
}

module _ (fl : BigFloat) where
  open fl use {Carrier, set_int, add, Is, add_is, set_int_is}

  is_eq : (x : Carrier) (m n : ℤ) → m ≡ n → Is x m → Is x n
  is_eq x m n e h = subst (Is x) e h

  add_tx_is :
      (acc : Carrier) (a : ℤ) (tx : Tx)
      → nat_abs a + nat_abs tx.value + nat_abs tx.transaction_fee ≤ exact_limit
      → Is acc a
      → Is (add_tx fl acc tx) ((a +ℤ tx.value) +ℤ tx.transaction_fee)
  unfolding add_tx
  add_tx_is acc a tx h it =
      add_is (add acc (set_int tx.value)) (set_int tx.transaction_fee) (a +ℤ tx.value)
        tx.transaction_fee
        (omega (arith, +ℤ_nat_abs a tx.value, +ℤ_nat_abs (a +ℤ tx.value) tx.transaction_fee))
        (add_is acc (set_int tx.value) a tx.value (omega (arith, +ℤ_nat_abs a tx.value)) it
          (set_int_is tx.value))
        (set_int_is tx.transaction_fee)

  -- The loop of superstep 1 adds up what the transactions cost.
  pub spent_is :
      (txs : List Tx) (acc : Carrier) (a : ℤ)
      → nat_abs a + cost_weight txs ≤ exact_limit
      → Is acc a
      → Is (foldl (add_tx fl) acc txs) (a +ℤ cost txs)
  spent_is [] acc a h it = is_eq acc a (a +ℤ pos 0) (sym (+ℤ_zero a)) it
  spent_is (tx ∷ txs) acc a h it =
      let a' = (a +ℤ tx.value) +ℤ tx.transaction_fee in
      is_eq (foldl (add_tx fl) (add_tx fl acc tx) txs) (a' +ℤ cost txs)
        (a +ℤ ((tx.value +ℤ tx.transaction_fee) +ℤ cost txs))
        (ap (λ z. z +ℤ cost txs) (+ℤ_assoc a tx.value tx.transaction_fee)
          ∙ +ℤ_assoc a (tx.value +ℤ tx.transaction_fee) (cost txs))
        (spent_is txs (add_tx fl acc tx) a'
          (omega (arith, +ℤ_nat_abs a tx.value, +ℤ_nat_abs (a +ℤ tx.value) tx.transaction_fee))
          (add_tx_is acc a tx (omega arith) it))

  -- The loop of superstep 2, the last message first.
  abbrev pub gather : Carrier → List (TxMessage Carrier) → Carrier
  gather s msgs = foldl (add_message fl) s (reverse msgs)

  gather-cons :
      (s : Carrier) (msg : TxMessage Carrier) (msgs : List (TxMessage Carrier))
      → gather s (msg ∷ msgs) ≡ add (gather s msgs) msg.value
  unfolding add_message
  gather-cons s msg msgs =
      ap (foldl (add_message fl) s) (reverse-cons msg msgs)
      ∙ foldl-append (add_message fl) s (reverse msgs) (msg ∷ [])

  gather-append :
      (s : Carrier) (xs ys : List (TxMessage Carrier))
      → gather s (xs ++ ys) ≡ gather (gather s ys) xs
  gather-append s xs ys =
      ap (foldl (add_message fl) s) (reverse-append xs ys)
      ∙ foldl-append (add_message fl) s (reverse ys) (reverse xs)

  gather_one :
      (k : Text) (tx : Tx) (txs : List Tx) (s : Carrier) (a : ℤ)
      → nat_abs a + (nat_abs tx.value + sent_weight k txs) ≤ exact_limit
      → Is (gather s (incoming fl k txs)) (sent_to k txs +ℤ a)
      → Is (gather s (message_of fl tx ∷ incoming fl k txs)) ((tx.value +ℤ sent_to k txs) +ℤ a)
  gather_one k tx txs s a h it =
      subst (λ x. Is x ((tx.value +ℤ sent_to k txs) +ℤ a))
        (sym (gather-cons s (message_of fl tx) (incoming fl k txs)))
        (is_eq (add (gather s (incoming fl k txs)) (set_int tx.value))
          ((sent_to k txs +ℤ a) +ℤ tx.value) ((tx.value +ℤ sent_to k txs) +ℤ a)
          (+ℤ_comm (sent_to k txs +ℤ a) tx.value ∙ sym (+ℤ_assoc tx.value (sent_to k txs) a))
          (add_is (gather s (incoming fl k txs)) (set_int tx.value) (sent_to k txs +ℤ a) tx.value
            (omega (
              arith,
              sent_to_bound k txs,
              +ℤ_nat_abs (sent_to k txs) a,
              +ℤ_nat_abs (sent_to k txs +ℤ a) tx.value,
            ))
            it (set_int_is tx.value)))

  -- The messages of one vertex.
  incoming_is :
      (k : Text) (txs : List Tx) (s : Carrier) (a : ℤ)
      → nat_abs a + sent_weight k txs ≤ exact_limit
      → Is s a
      → Is (gather s (incoming fl k txs)) (sent_to k txs +ℤ a)
  incoming_is k [] s a h it = is_eq s a (pos 0 +ℤ a) (sym (zero_+ℤ a)) it
  incoming_is k (tx ∷ txs) s a h it = elim (Bool-cases (tx.to == k)) [
    | inl here ↦ rw here (
        gather_one k tx txs s a (rw here at h)
          (incoming_is k txs s a (ground (arith, rw here at h)) it))
    | inr other ↦ rw other (incoming_is k txs s a (rw other at h) it)
  ]

  -- The messages of all vertices, in the order in which they were sent.
  pub incoming_all_is :
      (outbox : Text → List Tx) (k : Text) (is : List Text) (s : Carrier) (a : ℤ)
      → nat_abs a + earned_weight outbox k is ≤ exact_limit
      → Is s a
      → Is (gather s (incoming_all fl outbox k is)) (earned outbox k is +ℤ a)
  incoming_all_is outbox k [] s a h it = is_eq s a (pos 0 +ℤ a) (sym (zero_+ℤ a)) it
  incoming_all_is outbox k (i ∷ is) s a h it =
      let mine = incoming fl k (outbox i) in
      let rest = incoming_all fl outbox k is in
      let e = earned outbox k is in
      subst (λ x. Is x ((sent_to k (outbox i) +ℤ e) +ℤ a)) (sym (gather-append s mine rest))
        (is_eq (gather (gather s rest) mine) (sent_to k (outbox i) +ℤ (e +ℤ a))
          ((sent_to k (outbox i) +ℤ e) +ℤ a) (sym (+ℤ_assoc (sent_to k (outbox i)) e a))
          (incoming_is k (outbox i) (gather s rest) (e +ℤ a)
            (omega (arith, +ℤ_nat_abs e a, earned_bound outbox k is))
            (incoming_all_is outbox k is s a (omega arith) it)))
