-- ===== src/Service/Gravitas/Vertices.antt =====
-- depl/monolith/service/gravitas/gravitas.go: the loaded vertices and the in-memory graph they come
-- from.
use mathlib.Core.Path.{subst}
use mathlib.Core.Option
use etherscan.Base.{
  ◌+◌, ◌≡◌, ◌∙◌, sym, ap, true, List, [], ◌∷◌, arith, All, Option-cases, inl, inr, pos, ◌+ℤ◌,
  +ℤ_swap,
}
use etherscan.Base.Text.{Text, text_eq}
use etherscan.Base.Map.{Map, keys, lookup, has_key, has_key-lookup}
use etherscan.Base.Member.{member, Distinct, member-keys, All-of_members, All-of_lookups}
use etherscan.Base.Sums.{sum_of, sum_of_same, sum_of_ext}
use etherscan.TxGraph.Types.{Tx}
use etherscan.TxGraph.Memory.{InMemoryGraph, wallet_txs, hashes_of, txs_at}
use etherscan.TxGraph.Memory.Txs.{IsConsistent, IsFrom}
use etherscan.TxGraph.Memory.Interface.{present}
use etherscan.Gravitas.Float.{BigFloat}
use etherscan.Gravitas.Compute.{ScoreVertex, TxMessage}
use etherscan.Gravitas.Run.Counting.{IsFresh}
use etherscan.Gravitas.Run.Mailbox.{HasRecipients}
use etherscan.Gravitas.Run.Scores.{IsClosed}
use etherscan.Gravitas.Run.Done.{scored}
use etherscan.Gravitas.Run.Whole.{outbox_of, outbox_of_found}
use etherscan.Gravitas.Run.Balance.{id-scored}
use etherscan.Gravitas.Run.Amounts.{earned, earned_weight, sent_to, sent_weight}
use etherscan.Service.Gravitas.Loading.{txs_of, IsLoaded}
use etherscan.Service.Gravitas.Persisting.{AllFiled}

-- In a consistent graph the recipients of listed transactions are wallets.

present-known :
    (t : InMemoryGraph) (address : Text) (hs : List Text)
    → IsConsistent t
    → All (IsFrom t address) hs
    → All (λ tx. has_key tx.to t.wallets ≡ true) (present (txs_at t.txs hs))
present-known t address [] ok all = tt
present-known t address (h ∷ hs) ok ((tx, at_h, _, _), all) =
    rw at_h ((ok.filed h tx at_h).2, present-known t address hs ok all)

txs_of-known :
    (t : InMemoryGraph) (address : Text)
    → IsConsistent t
    → All (λ tx. has_key tx.to t.wallets ≡ true) (txs_of t address)
unfolding wallet_txs
txs_of-known t address ok = present-known t address (hashes_of address t) ok (ok.listed address)

module _ (fl : BigFloat) where
  open fl use {Carrier, Is}

  HasRecipients-known :
      (t : InMemoryGraph) (m : Map Text (ScoreVertex Carrier)) (txs : List Tx)
      → ((k : Text) → has_key k m ≡ has_key k t.wallets)
      → All (λ tx. has_key tx.to t.wallets ≡ true) txs
      → HasRecipients m txs
  HasRecipients-known t m [] known all = tt
  HasRecipients-known t m (tx ∷ txs) known (here, all) =
      (known tx.to ∙ here, HasRecipients-known t m txs known all)

  module _ (t : InMemoryGraph) (m : Map Text (ScoreVertex Carrier)) (loaded : IsLoaded fl t m)
      (known : (k : Text) → has_key k m ≡ has_key k t.wallets) where
    pub loaded-IsFresh : IsFresh fl m
    loaded-IsFresh k v at_k =
        ((loaded.vertices k v at_k).awake, (loaded.vertices k v at_k).no_message)

    pub loaded-IsClosed : IsConsistent t → IsClosed fl m
    loaded-IsClosed ok k v at_k =
        rw (loaded.vertices k v at_k).its_txs
          (HasRecipients-known t m (txs_of t k) known (txs_of-known t k ok))

    outbox_of-loaded : (a : Text) → member a (keys m) ≡ true → outbox_of fl m a ≡ txs_of t a
    outbox_of-loaded a listed =
        let (v, at_a) = has_key-lookup a m (sym (member-keys a m) ∙ listed) in
        sym (outbox_of_found fl a v m at_a) ∙ (loaded.vertices a v at_a).its_txs

    -- A sum over the vertices is one over the wallets.
    sum_of-loaded :
        {N : Type 0} (op : N → N → N) (unit : N)
        → ((a b c : N) → op a (op b c) ≡ op b (op a c))
        → (f : List Tx → N) → Distinct (keys t.wallets)
        → sum_of op unit (λ a. f (outbox_of fl m a)) (keys m)
          ≡ sum_of op unit (λ a. f (txs_of t a)) (keys t.wallets)
    sum_of-loaded op unit swap f once =
        sum_of_ext op unit (λ a. f (outbox_of fl m a)) (λ a. f (txs_of t a)) (keys m)
          (All-of_members (λ a. f (outbox_of fl m a) ≡ f (txs_of t a)) (keys m)
            (λ a listed. ap f (outbox_of-loaded a listed)))
        ∙ sum_of_same op unit swap (λ a. f (txs_of t a)) (keys m) (keys t.wallets) loaded.once once
            (λ a. member-keys a m ∙ known a ∙ sym (member-keys a t.wallets))

    pub earned-loaded :
        (k : Text)
        → Distinct (keys t.wallets)
        → (earned (outbox_of fl m) k (keys m) ≡ earned (txs_of t) k (keys t.wallets))
          × (earned_weight (outbox_of fl m) k (keys m)
              ≡ earned_weight (txs_of t) k (keys t.wallets))
    earned-loaded k once = (
      sum_of-loaded ◌+ℤ◌ (pos 0) +ℤ_swap (sent_to k) once,
      sum_of-loaded ◌+◌ 0 (λ a b c. omega arith) (sent_weight k) once,
    )

  -- The vertices are filed under their ids, also after the run.
  pub AllFiled-run :
      (t : InMemoryGraph) (m m' : Map Text (ScoreVertex Carrier))
      (msgs : Text → List (TxMessage Carrier))
      → IsLoaded fl t m
      → keys m' ≡ keys m
      → ((k : Text) → lookup k m' ≡ Option.map (scored fl (msgs k)) (lookup k m))
      → Distinct (keys m') × AllFiled fl m'
  AllFiled-run t m m' msgs loaded same at_k =
      let once : (Distinct (keys m')) = rw same loaded.once in
      (
        once,
        All-of_lookups (λ k v. v.id ≡ k) m' once
            (λ k v at_it. elim (Option-cases (lookup k m)) [
              | inl absent ↦ absurd (ground (arith, at_k k, at_it, absent))
              | inr (w, found) ↦
                  let same_vertex : (scored fl (msgs k) w ≡ v) =
                    ground (arith, at_k k, at_it, found) in
                  subst (λ (u : ScoreVertex Carrier). u.id ≡ k) same_vertex
                    (id-scored fl (msgs k) w ∙ (loaded.vertices k w found).filed)
            ]),
      )
