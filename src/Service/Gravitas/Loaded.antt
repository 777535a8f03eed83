-- ===== src/Service/Gravitas/Loaded.antt =====
-- depl/monolith/service/gravitas/gravitas.go: loadWallets over the in-memory graph.
use etherscan.Base.{
  ◌≡◌, refl, ◌∙◌, ap, true, false, ◌||◌, ◌&&◌, none, List, [], ◌∷◌, arith, All, ◌==◌, ==_iff,
  ==_refl,
}
use etherscan.Base.Text.{Text, text_eq, text_geb, text_ltb}
use etherscan.Base.Map.{Map, keys, lookup, has_key}
use etherscan.TxGraph.Types.{Wallet}
use etherscan.TxGraph.Memory.{InMemoryGraph, wallets, wallets_between}
use etherscan.TxGraph.Memory.Interface.{memory_reader}
use etherscan.TxGraph.Memory.Wallets.{any_address}
use etherscan.Gravitas.Float.{BigFloat}
use etherscan.Gravitas.Calculator.{Calculator, add_vertex}
use etherscan.Service.Gravitas.{
  FetchedVertex, add_edges, add_fetched, fetch_wallet_txs, add_vertices, load_wallets,
}
use etherscan.Service.Gravitas.Loading.{
  txs_of, IsLoaded, graph_add_vertex-IsLoaded, has_key-graph_add_vertex, add_edges-IsLoaded,
  has_key-of_keys,
}

-- The wallets are filed under their addresses, which lie in the range.

abbrev pub AllWithin : Text → Text → Map Text Wallet → Type 0
AllWithin from to = All (λ e. (e.1.address ≡ e.0) × ((text_geb e.0 from && text_ltb e.0 to) ≡ true))

any_address-wallets_between :
    (k from to : Text) (m : Map Text Wallet)
    → AllWithin from to m
    → any_address k (wallets_between from to m) ≡ has_key k m
unfolding wallets_between has_key lookup
any_address-wallets_between k from to [] all = refl
any_address-wallets_between k from to ((j, w) ∷ m) ((filed, within), all) =
    ground (arith, any_address-wallets_between k from to m all, ==_iff w.address k, ==_iff j k)

-- An arrival order that has the wallets that were sent.
abbrev pub IsArrival : (List Wallet → List Wallet) → Type 0
IsArrival arrival = (ws : List Wallet) (k : Text) → any_address k (arrival ws) ≡ any_address k ws

module _ (fl : BigFloat) (t : InMemoryGraph) where
  open fl use {Carrier, zero_float}

  add_fetched_lem :
      (a k : Text) (c : Calculator Carrier)
      → IsLoaded fl t c.g.vertices
      → ((add_fetched fl (record { address = a; txs = txs_of t a }) c).0 ≡ none)
        × (has_key k (add_fetched fl (record { address = a; txs = txs_of t a }) c).1.g.vertices
            ≡ (a == k || has_key k c.g.vertices))
        × IsLoaded fl t (add_fetched fl (record { address = a; txs = txs_of t a }) c).1.g.vertices
  unfolding add_fetched add_vertex
  add_fetched_lem a k c loaded =
      let c1 = add_vertex fl a (txs_of t a) c in
      let (fine, same, loaded') =
        add_edges-IsLoaded fl t a (txs_of t a) c1
          (has_key-graph_add_vertex fl t a a c.g ∙ ground (arith, ==_refl a))
          (graph_add_vertex-IsLoaded fl t a c.g loaded) in
      (
        fine,
        has_key-of_keys k c1.g.vertices (add_edges a (txs_of t a) c1).1.g.vertices same
            ∙ has_key-graph_add_vertex fl t a k c.g,
        loaded',
      )

  any_address-wallets_of :
      (k from to : Text)
      → AllWithin from to t.wallets
      → any_address k (wallets from to t) ≡ has_key k t.wallets
  unfolding wallets
  any_address-wallets_of k from to within = any_address-wallets_between k from to t.wallets within

  empty-IsLoaded : (c : Calculator Carrier) → c.g.vertices ≡ [] → IsLoaded fl t c.g.vertices
  unfolding keys lookup
  empty-IsLoaded c empty =
      rw empty (record { once = tt; vertices = λ k v at_k. absurd (ground (arith, at_k)) })

  has_key_empty :
      (k : Text) (c : Calculator Carrier) → c.g.vertices ≡ [] → has_key k c.g.vertices ≡ false
  unfolding has_key lookup
  has_key_empty k c empty = rw empty refl

module _ (fl : BigFloat) {ES : Type 0} (t : InMemoryGraph) where
  open fl use {Carrier}

  add_vertices_cons :
      (w : Wallet) (ws : List Wallet) (c : Calculator Carrier)
      → (add_fetched fl (record { address = w.address; txs = txs_of t w.address }) c).0 ≡ none
      → add_vertices fl {ES = ES} memory_reader (w ∷ ws) t c
        ≡ add_vertices fl memory_reader ws t
            (add_fetched fl (record { address = w.address; txs = txs_of t w.address }) c).1
  unfolding add_vertices fetch_wallet_txs
  add_vertices_cons w ws c fine = ground (arith, fine)

  add_vertices_lem :
      (ws : List Wallet) (k : Text) (c : Calculator Carrier)
      → IsLoaded fl t c.g.vertices
      → ((add_vertices fl {ES = ES} memory_reader ws t c).0 ≡ none)
        × (has_key k (add_vertices fl {ES = ES} memory_reader ws t c).1.g.vertices
            ≡ (any_address k ws || has_key k c.g.vertices))
        × IsLoaded fl t (add_vertices fl {ES = ES} memory_reader ws t c).1.g.vertices
  unfolding add_vertices
  add_vertices_lem [] k c loaded = (refl, refl, loaded)
  add_vertices_lem (w ∷ ws) k c loaded =
      let v : FetchedVertex = record { address = w.address; txs = txs_of t w.address } in
      let (fine, known, loaded1) = add_fetched_lem fl t w.address k c loaded in
      let (fine2, known2, loaded2) = add_vertices_lem ws k (add_fetched fl v c).1 loaded1 in
      rw (add_vertices_cons w ws c fine) (fine2, known2 ∙ ground (arith, known), loaded2)

  load_wallets_ok :
      (arrival : List Wallet → List Wallet) (from to : Text) (c c' : Calculator Carrier)
      → add_vertices fl {ES = ES} memory_reader (arrival (wallets from to t)) t c ≡ (none, c')
      → load_wallets fl {ES = ES} memory_reader arrival from to t c ≡ (none, c')
  unfolding load_wallets
  load_wallets_ok arrival from to c c' h = ground (arith, h)

  -- For a graph whose wallets lie in the range, the load of an empty calculator succeeds, and leaves
  -- a new vertex with its transactions for each wallet and for nothing else.
  pub load_wallets_lem :
      (arrival : List Wallet → List Wallet) (from to k : Text) (c : Calculator Carrier)
      → IsArrival arrival
      → AllWithin from to t.wallets
      → c.g.vertices ≡ []
      → let (err, c') = load_wallets fl {ES = ES} memory_reader arrival from to t c in
        (err ≡ none) × (has_key k c'.g.vertices ≡ has_key k t.wallets) × IsLoaded fl t c'.g.vertices
  load_wallets_lem arrival from to k c arrives within empty =
      let ws = arrival (wallets from to t) in
      let (fine, known, loaded) = add_vertices_lem ws k c (empty-IsLoaded fl t c empty) in
      rw
        (load_wallets_ok arrival from to c (add_vertices fl {ES = ES} memory_reader ws t c).1
          (ap (λ e. (e, (add_vertices fl {ES = ES} memory_reader ws t c).1)) fine))
        (
          refl,
          known
              ∙ ground (
                arith,
                arrives (wallets from to t) k,
                any_address-wallets_of fl t k from to within,
                has_key_empty fl t k c empty,
              ),
          loaded,
        )
