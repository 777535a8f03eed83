-- ===== src/Service/Gravitas.antt =====
-- depl/monolith/service/gravitas/gravitas.go: a pass of the gravitas service. The routines that fetch
-- transactions race each other: `arrival` is the order in which their vertices reach the graph.
pub mod Loading
pub mod Loaded
pub mod Persisting
pub mod Vertices
pub mod Pass
pub mod Ticks
use etherscan.Base.{
  ℕ, Bool, true, false, Option, none, some, List, [], ◌∷◌, map, ℤ, pos, negsuc, int_eq, ◌==◌,
  if◌then◌else◌,
}
use etherscan.Base.Text.{Text, codes}
use etherscan.Base.Map.{values}
use etherscan.Bsp.Errors as Bsp
use etherscan.Bsp.Graph.{reset}
use etherscan.TxGraph.Types.{Tx, Wallet}
use etherscan.TxGraph.Api.{GraphReader}
use etherscan.ScoreStore.Types.{Score}
use etherscan.ScoreStore.Api.{ScoreStoreApi}
use etherscan.Partition.Range as Range
use etherscan.Partition.Range.{new_full_range, partition_extents}
use etherscan.Gravitas.Float.{BigFloat}
use etherscan.Gravitas.Compute.{ScoreGraph, ScoreVertex}
use etherscan.Gravitas.Calculator.{Calculator, add_vertex, add_edge, calculate, scores_all}
use etherscan.Rpc.Streams.{Result, ok, error}

-- Where the error of a pass comes from: `EG` and `ES` are those of the graph and the score store.
pub data PassError (EG ES : Type 0) : Type 0 where
  graph_error : EG → PassError EG ES
  store_error : ES → PassError EG ES
  run_error : Bsp.Error → PassError EG ES
  range_error : Range.Error → PassError EG ES

-- What fetchWalletTxs sends to addVertices.
pub record FetchedVertex : Type 0 where
  pub address : Text
  pub txs : List Tx

abbrev pub balance_eth : Text
balance_eth = codes "balance_eth"

module _ {G EG : Type 0} (reader : GraphReader G EG) where
  -- A round of the loop of fetchWalletTxs; Close fails in no store.
  unfoldable pub fetch_wallet_txs : Text → G → Result EG FetchedVertex
  fetch_wallet_txs address g =
      let (failed, (txs, err)) = reader.wallet_txs address g in
      elim failed [
        | some e ↦ error e
        | none ↦ elim err [ some e ↦ error e | none ↦ ok (record { address = address; txs = txs }) ]
      ]

module _ {F : Type 0} where
  -- for _, tx := range v.txs
  unfoldable pub add_edges : Text → List Tx → Calculator F → Option Bsp.Error × Calculator F
  unfolding add_edge
  add_edges address [] c = (none, c)
  add_edges address (tx ∷ txs) c =
      let (err, c') = add_edge address tx.to c in
      elim err [ some e ↦ (some e, c') | none ↦ add_edges address txs c' ]

module _ (fl : BigFloat) where
  open fl use {Carrier}

  -- A round of the loop of addVertices.
  unfoldable pub add_fetched :
      FetchedVertex → Calculator Carrier → Option Bsp.Error × Calculator Carrier
  unfolding add_vertex add_edges
  add_fetched v c = add_edges v.address v.txs (add_vertex fl v.address v.txs c)

  module _ {G EG ES : Type 0} (reader : GraphReader G EG) where
    -- The wallets, in the order in which their vertices are added; the first error ends the load.
    unfoldable pub add_vertices :
        List Wallet → G → Calculator Carrier → Option (PassError EG ES) × Calculator Carrier
    unfolding fetch_wallet_txs add_fetched
    add_vertices [] g c = (none, c)
    add_vertices (wallet ∷ wallets) g c = elim (fetch_wallet_txs reader wallet.address g) [
      | error e ↦ (some (graph_error e), c)
      | ok v ↦
          let (err, c') = add_fetched v c in
          elim err [ some e ↦ (some (run_error e), c') | none ↦ add_vertices wallets g c' ]
    ]

    -- The errors of the routines reach the caller before that of the iterator over the wallets.
    unfoldable pub load_wallets :
        (List Wallet → List Wallet)
        → Text
        → Text
        → G
        → Calculator Carrier
        → Option (PassError EG ES) × Calculator Carrier
    unfolding add_vertices
    load_wallets arrival from_addr to_addr g c =
        let (failed, (wallets, err)) = reader.wallets from_addr to_addr g in
        elim failed [
          | some e ↦ (some (graph_error e), c)
          | none ↦
              let (err', c') = add_vertices (arrival wallets) g c in
              elim err' [
                | some e ↦ (some e, c')
                | none ↦ elim err [ some e ↦ (some (graph_error e), c') | none ↦ (none, c') ]
              ]
        ]

  abbrev pub score_of : ScoreVertex Carrier → Score Carrier
  score_of v = record { wallet = v.id; scorer = balance_eth; value = v.value.value }

  unfoldable pub persist_scores :
      {S ES : Type 0} → ScoreStoreApi S Carrier ES → List (ScoreVertex Carrier) → S → Option ES × S
  persist_scores api vertices s = api.upsert_scores (map score_of vertices) s

  -- The run of the calculator, the scores and the reset. `none` is the end of the fuel.
  unfoldable pub score_wallets :
      {S EG ES : Type 0}
      → ScoreStoreApi S Carrier ES
      → ℕ
      → (ℕ → Option Bsp.Error)
      → (ScoreGraph Carrier → List Text)
      → Calculator Carrier
      → S
      → Option (Option (PassError EG ES) × Calculator Carrier × S)
  unfolding calculate scores_all persist_scores reset
  score_wallets api fuel ctx_err schedule c s = elim (calculate fl fuel ctx_err schedule c) [
    | none ↦ none
    | some (err, g') ↦ elim err [
      | some e ↦ some (some (run_error e), record c { g = g' }, s)
      | none ↦
          let (err', s') = scores_all (persist_scores api) (record c { g = g' }) s in
          elim err' [
            | some e ↦ some (some (store_error e), record c { g = g' }, s')
            | none ↦ some (none, record c { g = reset g' }, s')
          ]
    ]
  ]

  -- `cancelled` says that the context was cancelled while the wallets were loaded.
  unfoldable pub update_graph_scores :
      {G S EG ES : Type 0}
      → GraphReader G EG
      → ScoreStoreApi S Carrier ES
      → (List Wallet → List Wallet)
      → Bool
      → ℕ
      → (ℕ → Option Bsp.Error)
      → (ScoreGraph Carrier → List Text)
      → G
      → Calculator Carrier
      → S
      → Option (Option (PassError EG ES) × Calculator Carrier × S)
  unfolding new_full_range partition_extents load_wallets score_wallets
  update_graph_scores reader api arrival cancelled fuel ctx_err schedule g c s =
      let (full_range, err) = new_full_range (pos 1) in
      elim err [
        | some e ↦ some (some (range_error e), c, s)
        | none ↦ elim full_range [
          | none ↦ none
          | some r ↦
              let ((from_addr, to_addr), err1) = partition_extents (pos 0) r in
              elim err1 [
                | some e ↦ some (some (range_error e), c, s)
                | none ↦
                    let (err2, c') = load_wallets reader arrival from_addr to_addr g c in
                    elim err2 [
                      | some e ↦ some (some e, c', s)
                      | none ↦
                          if cancelled
                          then some (none, c', s)
                          else score_wallets api fuel ctx_err schedule c' s
                    ]
              ]
        ]
      ]

-- What PartitionInfo says at a tick of the clock; `not_available` is
-- ErrNoPartitionDataAvailableYet.
pub data PartitionInfo (EP : Type 0) : Type 0 where
  current : ℤ → PartitionInfo EP
  not_available : PartitionInfo EP
  failed : EP → PartitionInfo EP

-- The loop of Run over the ticks before the context is done. `S` is the state that a pass changes.
unfoldable pub run : {E S : Type 0} → (S → Option E × S) → List (PartitionInfo E) → S → Option E × S
run pass [] s = (none, s)
run pass (failed e ∷ ticks) s = (some e, s)
run pass (not_available ∷ ticks) s = run pass ticks s
run pass (current p ∷ ticks) s =
    let (err, s') = pass s in
    let rest = run pass ticks s' in
    if p == pos 0 then elim err [ some e ↦ (some e, s') | none ↦ rest ] else (none, s)
