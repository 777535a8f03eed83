-- ===== src/Service/Gravitas/Pass.antt =====
-- depl/monolith/service/gravitas/gravitas.go: a pass over the in-memory stores stores the balances.
use mathlib.Core.Path.{subst}
use mathlib.Core.Option
use etherscan.Base.{
  ℕ, ◌+◌, ◌≤◌, ◌≡◌, refl, ◌∙◌, ap, ap₂, true, false, Option, none, some, List, [], arith, ℤ, ◌-ℤ◌,
}
use etherscan.Base.Text.{Text, text_eq, codes}
use etherscan.Base.Map.{keys, values, has_key, has_key-lookup}
use etherscan.Base.Member.{Distinct}
use etherscan.TxGraph.Types as Graph
use etherscan.TxGraph.Types.{Tx, Wallet}
use etherscan.TxGraph.Memory.{InMemoryGraph}
use etherscan.TxGraph.Memory.Txs.{IsConsistent}
use etherscan.TxGraph.Memory.Interface.{memory_reader}
use etherscan.ScoreStore.Types as Scores
use etherscan.ScoreStore.Memory.{InMemoryScoreStore}
use etherscan.ScoreStore.Memory.Interface.{memory_api}
use etherscan.ScoreStore.Memory.Scores.{score_at}
use etherscan.Bsp.Errors.{Error}
use etherscan.Gravitas.Float.{BigFloat, exact_limit}
use etherscan.Gravitas.Compute.{ScoreGraph}
use etherscan.Gravitas.Calculator.{Calculator, calculate, scores_all}
use etherscan.Gravitas.Run.Sent.{incoming_all}
use etherscan.Gravitas.Run.Scores.{calculate_finishes}
use etherscan.Gravitas.Run.Done.{scored}
use etherscan.Gravitas.Run.Whole.{IsFair, outbox_of}
use etherscan.Gravitas.Run.Balance.{scored_is, id-scored}
use etherscan.Gravitas.Run.Amounts.{cost, cost_weight, earned, earned_weight}
use etherscan.Partition.Range.{new_full_range, partition_extents}
use etherscan.Service.Gravitas.{balance_eth, persist_scores, load_wallets, update_graph_scores}
use etherscan.Service.Gravitas.Loading.{txs_of}
use etherscan.Service.Gravitas.Loaded.{AllWithin, IsArrival, load_wallets_lem}
use etherscan.Service.Gravitas.Persisting.{persist_scores_lem}
use etherscan.Bsp.Graph.{reset}
use etherscan.Partition.Hex.{parse_hex}
use etherscan.Base.Text.{text_ltb}
use etherscan.Service.Gravitas.{score_wallets}
use etherscan.Service.Gravitas.Vertices.{
  loaded-IsFresh, loaded-IsClosed, earned-loaded, AllFiled-run,
}

abbrev pub min_address : Text
min_address = codes "0000000000000000000000000000000000000000"

abbrev pub max_address : Text
max_address = codes "ffffffffffffffffffffffffffffffffffffffff"

module _ (fl : BigFloat) where
  open fl use {Carrier, Is}

  module _ (arrival : List Wallet → List Wallet) (fuel : ℕ) (ctx_err : ℕ → Option Error)
      (schedule : ScoreGraph Carrier → List Text) where
    score_wallets_ok :
        (c1 : Calculator Carrier) (s s' : InMemoryScoreStore Carrier) (g' : ScoreGraph Carrier)
        → calculate fl fuel ctx_err schedule c1 ≡ some (none, g')
        → persist_scores fl memory_api (values g'.vertices) s ≡ (none, s')
        → score_wallets fl {EG = Graph.Error} memory_api fuel ctx_err schedule c1 s
          ≡ some (none, record c1 { g = reset g' }, s')
    unfolding score_wallets scores_all
    score_wallets_ok c1 s s' g' run persist = ground (arith, run, persist)

    -- A pass in which nothing fails.
    update_graph_scores_ok :
        (t : InMemoryGraph) (c c1 : Calculator Carrier) (s s' : InMemoryScoreStore Carrier)
        (g' : ScoreGraph Carrier)
        → load_wallets fl {ES = Scores.Error} memory_reader arrival min_address max_address t c
          ≡ (none, c1)
        → calculate fl fuel ctx_err schedule c1 ≡ some (none, g')
        → persist_scores fl memory_api (values g'.vertices) s ≡ (none, s')
        → update_graph_scores fl memory_reader memory_api arrival false fuel ctx_err schedule t c s
          ≡ some (none, record c1 { g = reset g' }, s')
    unfolding update_graph_scores new_full_range partition_extents text_ltb parse_hex
    update_graph_scores_ok t c c1 s s' g' load run persist =
        ground (arith, load, score_wallets_ok c1 s s' g' run persist)

    -- If the range contains all wallets, the graph is consistent and the scorer is known, then a pass
    -- with an empty calculator ends without an error, and the score store has for the wallet, as
    -- score of `balance_eth`, what the wallet received less the values and the fees of its own
    -- transactions; the calculator is empty again. The vertices may arrive and be taken by the workers
    -- in any order. Fuel 4 is enough; the context must not expire, and what moves through the wallet, in
    -- wei, must be at most 2 ^ 53, beyond which the sums need not be exact.
    pub update_graph_scores_balances :
        (t : InMemoryGraph) (c : Calculator Carrier) (s : InMemoryScoreStore Carrier) (k : Text)
        → 4 ≤ fuel
        → ((i : ℕ) → ctx_err i ≡ none)
        → IsFair schedule
        → IsArrival arrival
        → IsConsistent t
        → AllWithin min_address max_address t.wallets
        → Distinct (keys t.wallets)
        → c.g.vertices ≡ []
        → has_key balance_eth s.scorers ≡ true
        → has_key k t.wallets ≡ true
        → cost_weight (txs_of t k) + earned_weight (txs_of t) k (keys t.wallets) ≤ exact_limit
        → (c' : Calculator Carrier) × (s' : InMemoryScoreStore Carrier) × (x : Carrier)
          × (update_graph_scores fl memory_reader memory_api arrival false fuel ctx_err schedule t c
                s
              ≡ some (none, c', s'))
          × (c'.g.vertices ≡ [])
          × (score_at k balance_eth s'
              ≡ some (record { wallet = k; scorer = balance_eth; value = x }))
          × Is x (earned (txs_of t) k (keys t.wallets) -ℤ cost (txs_of t k))
    unfolding reset
    update_graph_scores_balances t c s k enough live fair arrives ok within once empty scorer known
          small =
        let c1 =
          (load_wallets fl {ES = Scores.Error} memory_reader arrival min_address max_address t
            c).1 in
        let m = c1.g.vertices in
        let load = λ (j : Text).
          load_wallets_lem fl {ES = Scores.Error} t arrival min_address max_address j c arrives
            within empty in
        let (loads, known_k, loaded) = load k in
        let all_known = λ (j : Text). (load j).1 in
        let (is, g', ran) =
          calculate_finishes fl fuel ctx_err schedule c1 enough live fair
            (loaded-IsFresh fl t m loaded all_known) (loaded-IsClosed fl t m loaded all_known ok) in
        let msgs = λ (j : Text). incoming_all fl (outbox_of fl m) j is in
        let (v, at_k) = has_key-lookup k m (known_k ∙ known) in
        let of_k = loaded.vertices k v at_k in
        let (sum, weight) = earned-loaded fl t m loaded all_known k once in
        let (once', filed) =
          AllFiled-run fl t m g'.vertices msgs loaded ran.same_keys ran.at_vertex in
        let w = scored fl (msgs k) v in
        let at_end = ran.at_vertex k ∙ ap (Option.map (scored fl (msgs k))) at_k in
        let (persists, stored) =
          persist_scores_lem fl g'.vertices s k w scorer once' filed at_end in
        let s' = (persist_scores fl memory_api (values g'.vertices) s).1 in
        (
          record c1 { g = reset g' },
          s',
          w.value.value,
          update_graph_scores_ok t c c1 s s' g' (ap (λ e. (e, c1)) loads) ran.finished
              (ap (λ e. (e, s')) persists),
          refl,
          stored
              ∙ ap
                  (λ (a : Text).
                    some (record { wallet = a; scorer = balance_eth; value = w.value.value }))
                  (id-scored fl (msgs k) v ∙ of_k.filed),
          subst (Is w.value.value) (ap₂ (λ (e a : ℤ). e -ℤ a) sum (ap cost of_k.its_txs)) (
              scored_is fl m is k v loaded.once ran.order of_k.no_message of_k.at_zero
                (omega (arith, small, weight, ap cost_weight of_k.its_txs))),
        )
