-- ===== src/TxGraph/Memory/Txs.antt =====
-- txgraph/store/memory/memory.go: what InsertTxs and UpsertWallets keep.
use mathlib.Core.Path.{subst}
use etherscan.Base.{
  ◌⊎◌, ◌≡◌, refl, ◌∙◌, true, false, none, some, List, [], ◌∷◌, ◌++◌, if◌then◌else◌, All, arith,
  ◌==◌, ==_iff, ==_refl, Bool-cases, Option-cases, inl, inr,
}
use etherscan.Base.Text.{Text, text_eq}
use etherscan.Base.Map.{lookup, insert, has_key, lookup-insert}
use etherscan.TxGraph.Types.{Tx, Error}
use etherscan.TxGraph.Memory.{InMemoryGraph, insert_tx, insert_txs, hashes_of}

-- The hash is that of a transaction from the wallet.

abbrev pub IsFrom : InMemoryGraph → Text → Text → Type 0
IsFrom g address h = (tx : Tx) × (lookup h g.txs ≡ some tx) × (tx.from ≡ address) × (tx.hash ≡ h)

-- Every transaction connects known wallets and is filed under its hash, and every hash that is
-- listed for a wallet is that of a transaction from it.
pub record IsConsistent (g : InMemoryGraph) : Type 0 where
  pub filed :
      (h : Text) (tx : Tx)
      → lookup h g.txs ≡ some tx
      → (tx.hash ≡ h) × (has_key tx.from g.wallets ≡ true) × (has_key tx.to g.wallets ≡ true)
  pub listed : (address : Text) → All (IsFrom g address) (hashes_of address g)

-- The transaction is stored and listed.
abbrev pub store_tx : Tx → InMemoryGraph → InMemoryGraph
store_tx tx g = record g {
  txs = insert tx.hash tx g.txs;
  wallet_txs_map = insert tx.from (hashes_of tx.from g ++ tx.hash ∷ []) g.wallet_txs_map;
}

IsFrom-store_tx :
    (tx : Tx) (g : InMemoryGraph) (address h : Text)
    → has_key tx.hash g.txs ≡ false
    → IsFrom g address h
    → IsFrom (store_tx tx g) address h
unfolding has_key
IsFrom-store_tx tx g address h new (t, at_h, from_it, hash_it) =
    (t, lookup-insert tx.hash h tx g.txs ∙ ground (arith, ==_iff tx.hash h), from_it, hash_it)

All-IsFrom-store_tx :
    (tx : Tx) (g : InMemoryGraph) (address : Text) (hs : List Text)
    → has_key tx.hash g.txs ≡ false
    → All (IsFrom g address) hs
    → All (IsFrom (store_tx tx g) address) hs
All-IsFrom-store_tx tx g address [] new all = tt
All-IsFrom-store_tx tx g address (h ∷ hs) new all =
    (IsFrom-store_tx tx g address h new all.0, All-IsFrom-store_tx tx g address hs new all.1)

All-append_one :
    (P : Text → Type 0) (xs : List Text) (x : Text) → All P xs → P x → All P (xs ++ x ∷ [])
All-append_one P [] x all p = (p, tt)
All-append_one P (y ∷ xs) x all p = (all.0, All-append_one P xs x all.1 p)

-- A round of the loop either leaves the graph as it is, or stores a new transaction.
pub insert_tx-cases :
    (tx : Tx) (g : InMemoryGraph)
    → ((insert_tx tx g).1 ≡ g)
      ⊎ ((insert_tx tx g ≡ (none, store_tx tx g))
          × (has_key tx.hash g.txs ≡ false)
          × (has_key tx.from g.wallets ≡ true)
          × (has_key tx.to g.wallets ≡ true))
unfolding insert_tx
insert_tx-cases tx g = ground arith

pub hashes_of-store_tx :
    (tx : Tx) (g : InMemoryGraph) (address : Text)
    → hashes_of address (store_tx tx g)
      ≡ (if tx.from == address then hashes_of tx.from g ++ tx.hash ∷ [] else hashes_of address g)
hashes_of-store_tx tx g address =
    ground
      (arith, lookup-insert tx.from address (hashes_of tx.from g ++ tx.hash ∷ []) g.wallet_txs_map)

store_tx-IsConsistent :
    (tx : Tx) (g : InMemoryGraph)
    → has_key tx.hash g.txs ≡ false
    → has_key tx.from g.wallets ≡ true
    → has_key tx.to g.wallets ≡ true
    → IsConsistent g
    → IsConsistent (store_tx tx g)
store_tx-IsConsistent tx g new from_known to_known ok = record {
  filed =
      λ h t at_h. ground (arith, lookup-insert tx.hash h tx g.txs, ==_iff tx.hash h, ok.filed h t);
  listed = λ address. rw (hashes_of-store_tx tx g address) (elim (Bool-cases (tx.from == address)) [
    | inl same ↦ rw same (
        All-append_one (IsFrom (store_tx tx g) address) (hashes_of tx.from g) tx.hash
          (All-IsFrom-store_tx tx g address (hashes_of tx.from g) new (
            subst (λ a. All (IsFrom g a) (hashes_of tx.from g)) ((==_iff tx.from address).0 same)
              (ok.listed tx.from)))
          (
            tx,
            lookup-insert tx.hash tx.hash tx g.txs ∙ rw (==_refl tx.hash) refl,
            (==_iff tx.from address).0 same,
            refl,
          ))
    | inr other ↦
        rw other (All-IsFrom-store_tx tx g address (hashes_of address g) new (ok.listed address))
  ]);
}

insert_tx-IsConsistent :
    (tx : Tx) (g : InMemoryGraph) → IsConsistent g → IsConsistent (insert_tx tx g).1
insert_tx-IsConsistent tx g ok = elim (insert_tx-cases tx g) [
  | inl same ↦ rw same ok
  | inr (stored, new, from_known, to_known) ↦
      rw stored (store_tx-IsConsistent tx g new from_known to_known ok)
]

module _ (tx : Tx) (txs : List Tx) (g : InMemoryGraph) where
  pub insert_txs_ok :
      (insert_tx tx g).0 ≡ none → insert_txs (tx ∷ txs) g ≡ insert_txs txs (insert_tx tx g).1
  unfolding insert_txs
  insert_txs_ok fine = ground arith

  pub insert_txs_stop :
      (e : Error)
      → (insert_tx tx g).0 ≡ some e
      → insert_txs (tx ∷ txs) g ≡ (some e, (insert_tx tx g).1)
  unfolding insert_txs
  insert_txs_stop e failed = ground arith

-- InsertTxs keeps the graph consistent, also where it stops at an unknown address.
pub insert_txs-IsConsistent :
    (txs : List Tx) (g : InMemoryGraph) → IsConsistent g → IsConsistent (insert_txs txs g).1
unfolding insert_txs
insert_txs-IsConsistent [] g ok = ok
insert_txs-IsConsistent (tx ∷ txs) g ok =
    let kept = insert_tx-IsConsistent tx g ok in
    elim (Option-cases (insert_tx tx g).0) [
      | inl fine ↦
          rw (insert_txs_ok tx txs g fine) (insert_txs-IsConsistent txs (insert_tx tx g).1 kept)
      | inr (e, failed) ↦ rw (insert_txs_stop tx txs g e failed) kept
    ]

insert_tx_keeps :
    (tx t : Tx) (h : Text) (g : InMemoryGraph)
    → lookup h g.txs ≡ some t
    → lookup h (insert_tx tx g).1.txs ≡ some t
unfolding has_key
insert_tx_keeps tx t h g found = elim (insert_tx-cases tx g) [
  | inl same ↦ rw same found
  | inr (stored, new, _, _) ↦
      rw stored (lookup-insert tx.hash h tx g.txs ∙ ground (arith, ==_iff tx.hash h))
]

-- Transactions are insert-only: a stored transaction is never overwritten or dropped, also not by
-- another one with the same hash.
pub insert_txs_keeps :
    (txs : List Tx) (t : Tx) (h : Text) (g : InMemoryGraph)
    → lookup h g.txs ≡ some t
    → lookup h (insert_txs txs g).1.txs ≡ some t
unfolding insert_txs
insert_txs_keeps [] t h g found = found
insert_txs_keeps (tx ∷ txs) t h g found =
    let kept = insert_tx_keeps tx t h g found in
    elim (Option-cases (insert_tx tx g).0) [
      | inl fine ↦
          rw (insert_txs_ok tx txs g fine) (insert_txs_keeps txs t h (insert_tx tx g).1 kept)
      | inr (e, failed) ↦ rw (insert_txs_stop tx txs g e failed) kept
    ]
