-- ===== src/TxGraph/Memory/Wallets.antt =====
-- txgraph/store/memory/memory.go: what UpsertWallets adds, and when InsertTxs succeeds.
use etherscan.Base.{
  ◌≡◌, refl, ◌∙◌, sym, Bool, true, false, ◌||◌, none, List, [], ◌∷◌, length, nat_eqb, All, arith,
  ◌==◌, ==_iff, ap, some, ◌⊎◌, inl, inr, Bool-cases, Option-cases,
}
use etherscan.Base.Text.{Text, text_eq}
use etherscan.Base.Map.{lookup, has_key, insert, lookup-insert}
use etherscan.TxGraph.Types.{Tx, Wallet}
use etherscan.TxGraph.Memory.{InMemoryGraph, insert_tx, insert_txs, upsert_wallet, upsert_wallets}
use etherscan.TxGraph.Memory.Txs.{IsConsistent, insert_tx-cases, insert_txs_ok, insert_txs_stop}

-- One of the wallets has the address; one of the transactions has the hash.

abbrev pub any_address : Text → List Wallet → Bool
any_address a [] = false
any_address a (w ∷ ws) = w.address == a || any_address a ws

abbrev pub any_hash : Text → List Tx → Bool
any_hash h [] = false
any_hash h (tx ∷ txs) = tx.hash == h || any_hash h txs

-- The addresses have 40 characters.
abbrev pub AllAddresses : List Wallet → Type 0
AllAddresses = All (λ w. nat_eqb (length w.address) 40 ≡ true)

upsert_wallet_lem :
    (w : Wallet) (a : Text) (g : InMemoryGraph)
    → nat_eqb (length w.address) 40 ≡ true
    → ((upsert_wallet w g).0 ≡ none)
      × (has_key a (upsert_wallet w g).1.wallets ≡ (w.address == a || has_key a g.wallets))
unfolding upsert_wallet has_key
upsert_wallet_lem w a g valid =
    ground (arith, lookup-insert w.address a w g.wallets, ==_iff w.address a)

-- UpsertWallets leaves all but the wallets alone.
upsert_wallet_rest :
    (w : Wallet) (g : InMemoryGraph)
    → ((upsert_wallet w g).1.txs ≡ g.txs)
      × ((upsert_wallet w g).1.wallet_txs_map ≡ g.wallet_txs_map)
      × ((upsert_wallet w g).1.blocks ≡ g.blocks)
unfolding upsert_wallet
upsert_wallet_rest w g = ground arith

upsert_wallet_keeps :
    (w : Wallet) (a : Text) (g : InMemoryGraph)
    → has_key a g.wallets ≡ true
    → has_key a (upsert_wallet w g).1.wallets ≡ true
unfolding upsert_wallet has_key
upsert_wallet_keeps w a g known =
    ground (arith, lookup-insert w.address a w g.wallets, ==_iff w.address a)

upsert_wallets_cons :
    (w : Wallet) (ws : List Wallet) (g : InMemoryGraph)
    → (upsert_wallet w g).0 ≡ none
    → upsert_wallets (w ∷ ws) g ≡ upsert_wallets ws (upsert_wallet w g).1
unfolding upsert_wallets
upsert_wallets_cons w ws g fine = ground arith

-- For addresses of 40 characters UpsertWallets succeeds, and then the known wallets are those from
-- before and the given ones; transactions and blocks stay.
pub upsert_wallets_lem :
    (ws : List Wallet) (a : Text) (g : InMemoryGraph)
    → AllAddresses ws
    → ((upsert_wallets ws g).0 ≡ none)
      × (has_key a (upsert_wallets ws g).1.wallets ≡ (any_address a ws || has_key a g.wallets))
      × ((upsert_wallets ws g).1.txs ≡ g.txs)
      × ((upsert_wallets ws g).1.wallet_txs_map ≡ g.wallet_txs_map)
      × ((upsert_wallets ws g).1.blocks ≡ g.blocks)
unfolding upsert_wallets
upsert_wallets_lem [] a g all = (refl, refl, refl, refl, refl)
upsert_wallets_lem (w ∷ ws) a g (valid, all) =
    let (fine, keys) = upsert_wallet_lem w a g valid in
    let (ok, rest, txs, map, blocks) = upsert_wallets_lem ws a (upsert_wallet w g).1 all in
    let (txs1, map1, blocks1) = upsert_wallet_rest w g in
    rw (upsert_wallets_cons w ws g fine)
      (ok, rest ∙ ground (arith, keys), txs ∙ txs1, map ∙ map1, blocks ∙ blocks1)

-- More wallets do not make a graph inconsistent.
pub more_wallets-IsConsistent :
    (g g' : InMemoryGraph)
    → g'.txs ≡ g.txs
    → g'.wallet_txs_map ≡ g.wallet_txs_map
    → ((a : Text) → has_key a g.wallets ≡ true → has_key a g'.wallets ≡ true)
    → IsConsistent g
    → IsConsistent g'
more_wallets-IsConsistent g g' txs map more ok = record {
  filed = λ h tx at_h.
      let (hash, from, to) = ok.filed h tx (ap (lookup h) (sym txs) ∙ at_h) in
      (hash, more tx.from from, more tx.to to);
  listed = λ a. rw (txs, map) (ok.listed a);
}

-- The wallets of the transaction are known.
abbrev pub IsConnected : InMemoryGraph → Tx → Type 0
IsConnected g tx = (has_key tx.from g.wallets ≡ true) × (has_key tx.to g.wallets ≡ true)

insert_tx_lem :
    (tx : Tx) (h : Text) (g : InMemoryGraph)
    → IsConnected g tx
    → ((insert_tx tx g).0 ≡ none)
      × (has_key h (insert_tx tx g).1.txs ≡ (tx.hash == h || has_key h g.txs))
      × ((insert_tx tx g).1.wallets ≡ g.wallets)
      × ((insert_tx tx g).1.blocks ≡ g.blocks)
unfolding insert_tx has_key
insert_tx_lem tx h g known = ground (arith, lookup-insert tx.hash h tx g.txs, ==_iff tx.hash h)

insert_txs_cons :
    (tx : Tx) (txs : List Tx) (g : InMemoryGraph)
    → (insert_tx tx g).0 ≡ none
    → insert_txs (tx ∷ txs) g ≡ insert_txs txs (insert_tx tx g).1
unfolding insert_txs
insert_txs_cons tx txs g fine = ground arith

All-IsConnected :
    (g g' : InMemoryGraph) (txs : List Tx)
    → g'.wallets ≡ g.wallets
    → All (IsConnected g) txs
    → All (IsConnected g') txs
All-IsConnected g g' [] e all = tt
All-IsConnected g g' (tx ∷ txs) e ((from, to), all) =
    ((rw e from, rw e to), All-IsConnected g g' txs e all)

-- For transactions between known wallets InsertTxs succeeds, and then the known hashes are those
-- from before and the given ones; wallets and blocks stay.
pub insert_txs_lem :
    (txs : List Tx) (h : Text) (g : InMemoryGraph)
    → All (IsConnected g) txs
    → ((insert_txs txs g).0 ≡ none)
      × (has_key h (insert_txs txs g).1.txs ≡ (any_hash h txs || has_key h g.txs))
      × ((insert_txs txs g).1.wallets ≡ g.wallets)
      × ((insert_txs txs g).1.blocks ≡ g.blocks)
unfolding insert_txs
insert_txs_lem [] h g all = (refl, refl, refl, refl)
insert_txs_lem (tx ∷ txs) h g (known, all) =
    let (fine, keys, ws, blocks) = insert_tx_lem tx h g known in
    let g1 = (insert_tx tx g).1 in
    let (ok, rest, ws', blocks') = insert_txs_lem txs h g1 (All-IsConnected g g1 txs ws all) in
    rw (insert_txs_cons tx txs g fine) (ok, rest ∙ ground (arith, keys), ws' ∙ ws, blocks' ∙ blocks)

abbrev pub Among : Tx → List Tx → Type 0
Among t [] = ⊥
Among t (tx ∷ txs) = (tx ≡ t) ⊎ Among t txs

insert_tx_origin :
    (tx : Tx) (h : Text) (t : Tx) (g : InMemoryGraph)
    → lookup h (insert_tx tx g).1.txs ≡ some t
    → (lookup h g.txs ≡ some t) ⊎ (tx ≡ t)
insert_tx_origin tx h t g at_h = elim (insert_tx-cases tx g) [
  | inl same ↦ inl (ap (λ x. lookup h x.txs) (sym same) ∙ at_h)
  | inr (stored, _, _, _) ↦
      let here : lookup h (insert tx.hash tx g.txs) ≡ some t =
        ap (λ r. lookup h r.1.txs) (sym stored) ∙ at_h in
      elim (Bool-cases (tx.hash == h)) [
        | inl equal ↦ inr (ground (arith, here, equal, lookup-insert tx.hash h tx g.txs))
        | inr other ↦ inl (ground (arith, here, other, lookup-insert tx.hash h tx g.txs))
      ]
]

-- A transaction that is stored after InsertTxs, which may have failed, is an old or a given one.
pub insert_txs_origin :
    (txs : List Tx) (h : Text) (t : Tx) (g : InMemoryGraph)
    → lookup h (insert_txs txs g).1.txs ≡ some t
    → (lookup h g.txs ≡ some t) ⊎ Among t txs
unfolding insert_txs
insert_txs_origin [] h t g at_h = inl at_h
insert_txs_origin (tx ∷ txs) h t g at_h =
    let before : (lookup h (insert_tx tx g).1.txs ≡ some t) ⊎ Among t txs =
      elim (Option-cases (insert_tx tx g).0) [
        | inl fine ↦
            insert_txs_origin txs h t (insert_tx tx g).1
              (ap (λ r. lookup h r.1.txs) (sym (insert_txs_ok tx txs g fine)) ∙ at_h)
        | inr (e, failed) ↦
            inl (ap (λ r. lookup h r.1.txs) (sym (insert_txs_stop tx txs g e failed)) ∙ at_h)
      ] in
    elim before [
      | inr later ↦ inr (inr later)
      | inl at_first ↦ elim (insert_tx_origin tx h t g at_first) [
        | inl old ↦ inl old
        | inr here ↦ inr (inl here)
      ]
    ]

insert_tx_blocks : (tx : Tx) (g : InMemoryGraph) → (insert_tx tx g).1.blocks ≡ g.blocks
unfolding insert_tx
insert_tx_blocks tx g = ground arith

-- Neither method touches the blocks, also where it fails.
pub insert_txs_blocks : (txs : List Tx) (g : InMemoryGraph) → (insert_txs txs g).1.blocks ≡ g.blocks
unfolding insert_txs
insert_txs_blocks [] g = refl
insert_txs_blocks (tx ∷ txs) g =
    ground (arith, insert_txs_blocks txs (insert_tx tx g).1, insert_tx_blocks tx g)

pub upsert_wallets_blocks :
    (ws : List Wallet) (g : InMemoryGraph) → (upsert_wallets ws g).1.blocks ≡ g.blocks
unfolding upsert_wallets
upsert_wallets_blocks [] g = refl
upsert_wallets_blocks (w ∷ ws) g =
    ground (arith, upsert_wallets_blocks ws (upsert_wallet w g).1, upsert_wallet_rest w g)
