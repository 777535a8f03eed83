-- ===== src/Service/Gravitas/Loading.antt =====
-- depl/monolith/service/gravitas/gravitas.go: what loadWallets makes of the calculator, over the
-- in-memory graph.
use etherscan.Base.{
  ◌≡◌, refl, ◌∙◌, sym, ap, true, ◌||◌, none, some, List, [], ◌∷◌, arith, ◌==◌, ==_iff, Option-cases,
  inl, inr,
}
use etherscan.Base.Text.{Text, text_eq}
use etherscan.Base.Map.{
  Map, keys, lookup, has_key, lookup-insert, lookup-alter, has_key-lookup, insert, alter,
  keys-alter,
}
use etherscan.Base.Lookups.{AllFound, insert-AllFound, alter-AllFound}
use etherscan.Bsp.Queue.{new_in_memory_queue}
use etherscan.Base.Member.{member, Distinct, keys-insert-Distinct, member-keys}
use etherscan.TxGraph.Types.{Tx}
use etherscan.TxGraph.Memory.{InMemoryGraph, wallet_txs}
use etherscan.TxGraph.Memory.Interface.{present}
use etherscan.Bsp.Graph as Bsp
use etherscan.Gravitas.Float.{BigFloat}
use etherscan.Gravitas.Compute.{ScoreVertex, ScoreGraph, VertexData, TxMessage}
use etherscan.Gravitas.Calculator.{Calculator, add_edge}
use etherscan.Service.Gravitas.{add_edges}

-- The transactions that the graph lists for a wallet.

abbrev pub txs_of : InMemoryGraph → Text → List Tx
txs_of t address = present (wallet_txs address t)

pub has_key-of_keys :
    {V : Type 0} (k : Text) (m m' : Map Text V) → keys m' ≡ keys m → has_key k m' ≡ has_key k m
has_key-of_keys k m m' same = sym (member-keys k m') ∙ ap (member k) same ∙ member-keys k m

module _ (fl : BigFloat) where
  open fl use {Carrier, zero_float}

  -- A vertex as the load leaves it.
  pub record IsLoadedVertex (t : InMemoryGraph) (k : Text) (v : ScoreVertex Carrier) : Type 0 where
    pub filed : v.id ≡ k
    pub awake : v.active ≡ true
    pub no_message : v.queue0 ≡ record { msgs = []; latched_msg = none }
    pub at_zero : v.value.value ≡ zero_float
    pub its_txs : v.value.txs ≡ txs_of t k

  pub record IsLoaded (t : InMemoryGraph) (m : Map Text (ScoreVertex Carrier)) : Type 0 where
    pub once : Distinct (keys m)
    pub vertices : AllFound (IsLoadedVertex t) m

  module _ (a : Text) (g : ScoreGraph Carrier) where
    add_vertex_absent :
        (d : VertexData Carrier)
        → lookup a g.vertices ≡ none
        → (Bsp.add_vertex a d g).vertices ≡ insert a (Bsp.new_vertex a d) g.vertices
    unfolding Bsp.add_vertex
    add_vertex_absent d h = ground arith

    add_vertex_present :
        (d : VertexData Carrier) (w : ScoreVertex Carrier)
        → lookup a g.vertices ≡ some w
        → (Bsp.add_vertex a d g).vertices ≡ alter a (Bsp.set_value d) g.vertices
    unfolding Bsp.add_vertex Bsp.update_vertex
    add_vertex_present d w h = ground arith

    add_edge_present :
        (dst : Text) (w : ScoreVertex Carrier)
        → lookup a g.vertices ≡ some w
        → Bsp.add_edge a dst none g ≡ (
          none,
          record g {
            vertices = alter a (Bsp.append_edge (record { value = none; dst_id = dst })) g.vertices;
          },
        )
    unfolding Bsp.add_edge Bsp.update_vertex
    add_edge_present dst w h = ground arith

  module _ (t : InMemoryGraph) (a : Text) where
    pub graph_add_vertex-IsLoaded :
        (g : ScoreGraph Carrier)
        → IsLoaded t g.vertices
        → IsLoaded t (Bsp.add_vertex a (record { value = zero_float; txs = txs_of t a }) g).vertices
    unfolding Bsp.set_value Bsp.new_vertex new_in_memory_queue
    graph_add_vertex-IsLoaded g loaded =
        let d : VertexData Carrier = record { value = zero_float; txs = txs_of t a } in
        elim (Option-cases (lookup a g.vertices)) [
          | inl absent ↦ rw (add_vertex_absent a g d absent) (record {
            once = keys-insert-Distinct a (Bsp.new_vertex a d) g.vertices loaded.once;
            vertices =
                insert-AllFound (IsLoadedVertex t) a (Bsp.new_vertex a d) g.vertices
                  (record {
                    filed = refl;
                    awake = refl;
                    no_message = refl;
                    at_zero = refl;
                    its_txs = refl;
                  })
                  loaded.vertices;
          })
          | inr (w, old) ↦ rw (add_vertex_present a g d w old) (record {
            once = rw (keys-alter a (Bsp.set_value d) g.vertices) loaded.once;
            vertices =
                alter-AllFound (IsLoadedVertex t) a (Bsp.set_value d) g.vertices
                  (λ v ok. record {
                    filed = ok.filed;
                    awake = ok.awake;
                    no_message = ok.no_message;
                    at_zero = refl;
                    its_txs = refl;
                  })
                  loaded.vertices;
          })
        ]

    pub has_key-graph_add_vertex :
        (k : Text) (g : ScoreGraph Carrier)
        → has_key k (Bsp.add_vertex a (record { value = zero_float; txs = txs_of t a }) g).vertices
          ≡ (a == k || has_key k g.vertices)
    unfolding Bsp.add_vertex Bsp.update_vertex has_key
    has_key-graph_add_vertex k g =
        let d : VertexData Carrier = record { value = zero_float; txs = txs_of t a } in
        ground (
          arith,
          lookup-insert a k (Bsp.new_vertex a d) g.vertices,
          lookup-alter a k (Bsp.set_value d) g.vertices,
          ==_iff a k,
        )

    add_edge-IsLoaded :
        (dst : Text) (c : Calculator Carrier)
        → has_key a c.g.vertices ≡ true
        → IsLoaded t c.g.vertices
        → ((add_edge a dst c).0 ≡ none)
          × (keys (add_edge a dst c).1.g.vertices ≡ keys c.g.vertices)
          × IsLoaded t (add_edge a dst c).1.g.vertices
    unfolding add_edge Bsp.append_edge
    add_edge-IsLoaded dst c known loaded =
        let f =
          Bsp.append_edge {V = VertexData Carrier} {M = TxMessage Carrier}
            (record { value = none; dst_id = dst }) in
        let (w, found) = has_key-lookup a c.g.vertices known in
        rw (add_edge_present a c.g dst w found) (
          refl,
          keys-alter a f c.g.vertices,
          record {
            once = rw (keys-alter a f c.g.vertices) loaded.once;
            vertices =
                alter-AllFound (IsLoadedVertex t) a f c.g.vertices
                  (λ v ok. record {
                    filed = ok.filed;
                    awake = ok.awake;
                    no_message = ok.no_message;
                    at_zero = ok.at_zero;
                    its_txs = ok.its_txs;
                  })
                  loaded.vertices;
          },
        )

    add_edges_cons :
        (tx : Tx) (txs : List Tx) (c : Calculator Carrier)
        → (add_edge a tx.to c).0 ≡ none
        → add_edges a (tx ∷ txs) c ≡ add_edges a txs (add_edge a tx.to c).1
    unfolding add_edges
    add_edges_cons tx txs c fine = ground arith

    pub add_edges-IsLoaded :
        (txs : List Tx) (c : Calculator Carrier)
        → has_key a c.g.vertices ≡ true
        → IsLoaded t c.g.vertices
        → ((add_edges a txs c).0 ≡ none)
          × (keys (add_edges a txs c).1.g.vertices ≡ keys c.g.vertices)
          × IsLoaded t (add_edges a txs c).1.g.vertices
    unfolding add_edges
    add_edges-IsLoaded [] c known loaded = (refl, refl, loaded)
    add_edges-IsLoaded (tx ∷ txs) c known loaded =
        let c1 = (add_edge a tx.to c).1 in
        let (fine, same, loaded1) = add_edge-IsLoaded tx.to c known loaded in
        let (fine2, same2, loaded2) =
          add_edges-IsLoaded txs c1 (has_key-of_keys a c.g.vertices c1.g.vertices same ∙ known)
            loaded1 in
        rw (add_edges_cons tx txs c fine) (fine2, same2 ∙ same, loaded2)
