-- ===== src/TxGraph/Memory/Listed.antt =====
-- txgraph/store/memory/memory.go: what WalletTxs finds in a graph that InsertTxs has filled.
use mathlib.Core.Path.{subst}
use etherscan.Base.{
  ◌≡◌, refl, sym, ap, true, ◌||◌, Option, none, some, List, [], ◌∷◌, ◌++◌, All, arith, ◌==◌, ==_iff,
  ==_refl, Bool-cases, Option-cases, inl, inr,
}
use etherscan.Base.Text.{Text, text_eq}
use etherscan.Base.Member.{member}
use etherscan.Base.Map.{lookup, lookup-insert}
use etherscan.TxGraph.Types.{Tx}
use etherscan.TxGraph.Memory.{InMemoryGraph, insert_tx, insert_txs, wallet_txs, hashes_of, txs_at}
use etherscan.TxGraph.Memory.Txs.{
  IsFrom, IsConsistent, store_tx, insert_tx-cases, hashes_of-store_tx, insert_txs_ok,
  insert_txs_stop, insert_txs-IsConsistent,
}

-- For each hash, in their order, the stored transaction with that hash, which the wallet has sent.

abbrev pub FoundFor : InMemoryGraph → Text → List Text → List (Option Tx) → Type 0
FoundFor g address [] [] = Unit {0}
FoundFor g address (h ∷ hs) (some tx ∷ found) =
    (tx.hash ≡ h) × (tx.from ≡ address) × (lookup h g.txs ≡ some tx) × FoundFor g address hs found
FoundFor g address _ _ = ⊥

FoundFor-cons :
    (address h : Text) (g : InMemoryGraph) (hs : List Text) (found : List (Option Tx))
    (o : Option Tx)
    → lookup h g.txs ≡ o
    → IsFrom g address h
    → FoundFor g address hs found
    → FoundFor g address (h ∷ hs) (o ∷ found)
FoundFor-cons address h g hs found none at (tx, at_h, _, _) rest = cc
FoundFor-cons address h g hs found (some t) at (tx, at_h, from_it, hash_it) rest =
    let same : tx ≡ t = ground (arith, at, at_h) in
    (subst (λ x. x.hash ≡ h) same hash_it, subst (λ x. x.from ≡ address) same from_it, at, rest)

txs_at-FoundFor :
    (address : Text) (g : InMemoryGraph) (hs : List Text)
    → All (IsFrom g address) hs
    → FoundFor g address hs (txs_at g.txs hs)
txs_at-FoundFor address g [] all = tt
txs_at-FoundFor address g (h ∷ hs) (here, all) =
    FoundFor-cons address h g hs (txs_at g.txs hs) (lookup h g.txs) refl here
      (txs_at-FoundFor address g hs all)

-- A transaction is listed for the wallet that sent it.
abbrev pub AllListed : InMemoryGraph → Type 0
AllListed g =
    (h : Text) (tx : Tx) → lookup h g.txs ≡ some tx → member h (hashes_of tx.from g) ≡ true

member-append_one :
    (h x : Text) (hs : List Text) → member h (hs ++ x ∷ []) ≡ (member h hs || x == h)
unfolding member
member-append_one h x [] = ground arith
member-append_one h x (y ∷ hs) = ground (arith, member-append_one h x hs)

store_tx-AllListed : (tx : Tx) (g : InMemoryGraph) → AllListed g → AllListed (store_tx tx g)
store_tx-AllListed tx g all h t at_h =
    let listed = hashes_of-store_tx tx g t.from in
    let added = member-append_one h tx.hash (hashes_of tx.from g) in
    elim (Bool-cases (tx.hash == h)) [
      | inl here ↦
          let same : tx ≡ t = ground (arith, at_h, here, lookup-insert tx.hash h tx g.txs) in
          let from_same : (tx.from == t.from) ≡ true =
            subst (λ x. (tx.from == x.from) ≡ true) same (==_refl tx.from) in
          ground (arith, listed, added, here, from_same)
      | inr other ↦
          let old : member h (hashes_of t.from g) ≡ true =
            all h t (ground (arith, at_h, other, lookup-insert tx.hash h tx g.txs)) in
          elim (Bool-cases (tx.from == t.from)) [
            | inr elsewhere ↦ ground (arith, listed, elsewhere, old)
            | inl from_same ↦
                let old' : member h (hashes_of tx.from g) ≡ true =
                  subst (λ x. member h (hashes_of x g) ≡ true)
                    (sym ((==_iff tx.from t.from).0 from_same)) old in
                ground (arith, listed, added, from_same, old')
          ]
    ]

insert_tx-AllListed : (tx : Tx) (g : InMemoryGraph) → AllListed g → AllListed (insert_tx tx g).1
insert_tx-AllListed tx g all = elim (insert_tx-cases tx g) [
  | inl same ↦ subst AllListed (sym same) all
  | inr (stored, _, _, _) ↦
      subst AllListed (sym (ap (λ r. r.1) stored)) (store_tx-AllListed tx g all)
]

insert_txs-AllListed :
    (txs : List Tx) (g : InMemoryGraph) → AllListed g → AllListed (insert_txs txs g).1
unfolding insert_txs
insert_txs-AllListed [] g all = all
insert_txs-AllListed (tx ∷ txs) g all =
    let kept = insert_tx-AllListed tx g all in
    elim (Option-cases (insert_tx tx g).0) [
      | inl fine ↦
          subst AllListed (sym (ap (λ r. r.1) (insert_txs_ok tx txs g fine)))
            (insert_txs-AllListed txs (insert_tx tx g).1 kept)
      | inr (e, failed) ↦
          subst AllListed (sym (ap (λ r. r.1) (insert_txs_stop tx txs g e failed))) kept
    ]

-- In a graph that InsertTxs has filled from a consistent one in which every transaction is listed for
-- its sender: WalletTxs returns, for each hash that is listed for the wallet, the stored transaction
-- with that hash, which the wallet has sent; and the hash of every stored transaction that the wallet
-- has sent is among them.
pub wallet_txs_finds :
    (address : Text) (txs : List Tx) (g : InMemoryGraph)
    → IsConsistent g
    → AllListed g
    → let g' = (insert_txs txs g).1 in
      FoundFor g' address (hashes_of address g') (wallet_txs address g')
      × ((h : Text) (tx : Tx)
          → lookup h g'.txs ≡ some tx
          → tx.from ≡ address
          → member h (hashes_of address g') ≡ true)
unfolding wallet_txs
wallet_txs_finds address txs g ok all =
    let g' = (insert_txs txs g).1 in
    (
      txs_at-FoundFor address g' (hashes_of address g')
          ((insert_txs-IsConsistent txs g ok).listed address),
      λ h tx at_h from_it.
          subst (λ a. member h (hashes_of a g') ≡ true) from_it
            (insert_txs-AllListed txs g all h tx at_h),
    )
