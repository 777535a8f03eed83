-- ===== src/Gravitas/Run/Vertex.antt =====
-- gravitas/compute.go: one vertex in one superstep, as an equation for a round of the worker.
use mathlib.Core.List.{foldl}
use etherscan.Base.{ℕ, ◌≡◌, refl, ◌∙◌, Option, none, some, List, [], ◌∷◌, arith}
use etherscan.Base.Text.{Text, text_eq}
use etherscan.Base.Map.{Map, lookup, alter, has_key-alter, has_key-lookup}
use etherscan.Bsp.Errors.{Error}
use etherscan.Bsp.Graph.{deliver, set_value, freeze, update_vertex, send_message}
use etherscan.Bsp.Graph.Delivery.{send_message_local}
use etherscan.TxGraph.Types.{Tx}
use etherscan.Aggregator.Int.{IntAccumulator}
use etherscan.Gravitas.Float.{BigFloat}
use etherscan.Gravitas.Compute.{
  VertexData, TxMessage, ScoreVertex, ScoreGraph, compute, compute_at, add_tx, send_txs, send_step,
}
use etherscan.Gravitas.Run.Mailbox.{HasRecipients, HasRecipients-keys, message_of, post}

module _ (fl : BigFloat) where
  open fl use {Carrier, zero_float, set_int, sub}

  -- A graph by its parts.
  abbrev pub graph_at :
      ℕ
      → Map Text IntAccumulator
      → Option (Text → TxMessage Carrier → Option Error)
      → Map Text (ScoreVertex Carrier)
      → ℕ
      → ℕ
      → ScoreGraph Carrier
  graph_at s ags rel m a p = record {
    superstep = s;
    aggregators = ags;
    vertices = m;
    relayer = rel;
    active_in_step = a;
    pending_in_step = p;
  }

  pub compute_found :
      (i : Text) (g : ScoreGraph Carrier) (v : ScoreVertex Carrier)
      → lookup i g.vertices ≡ some v
      → compute fl i g ≡ compute_at fl g.superstep i v g
  unfolding compute
  compute_found i g v h = ground arith

  -- What a transaction's loop has subtracted.
  abbrev pub spent : List Tx → Carrier
  spent = foldl (add_tx fl) zero_float

  -- The vertex gets its new value and is frozen.
  abbrev pub settle : VertexData Carrier → ScoreVertex Carrier → ScoreVertex Carrier
  settle d v = freeze (set_value (record { value = sub d.value (spent d.txs); txs = [] }) v)

  module _ (ags : Map Text IntAccumulator)
      (rel : Option (Text → TxMessage Carrier → Option Error)) where
    send_txs_cons :
        (tx : Tx) (txs : List Tx) (sum : Carrier) (g g' : ScoreGraph Carrier)
        → send_message tx.to (message_of fl tx) g ≡ (none, g')
        → send_txs fl (tx ∷ txs) sum g ≡ send_txs fl txs (add_tx fl sum tx) g'
    unfolding send_txs
    send_txs_cons tx txs sum g g' h = ground arith

    -- With all recipients local, the loop of superstep 1 posts every message and returns no error.
    pub send_txs-post :
        (txs : List Tx) (sum : Carrier) (m : Map Text (ScoreVertex Carrier)) (a p : ℕ)
        → HasRecipients m txs
        → send_txs fl txs sum (graph_at 1 ags rel m a p)
          ≡ ((none, foldl (add_tx fl) sum txs), graph_at 1 ags rel (post fl txs m) a p)
    unfolding send_txs update_vertex
    send_txs-post [] sum m a p h = refl
    send_txs-post (tx ∷ txs) sum m a p h =
        let f = deliver {V = VertexData Carrier} 0 (message_of fl tx) in
        let m1 = alter tx.to f m in
        let (w, found) = has_key-lookup tx.to m h.0 in
        send_txs_cons tx txs sum (graph_at 1 ags rel m a p) (graph_at 1 ags rel m1 a p)
          (send_message_local tx.to (message_of fl tx) (graph_at 1 ags rel m a p) found)
        ∙ send_txs-post txs (add_tx fl sum tx) m1 a p
            (HasRecipients-keys m m1 txs (λ k. has_key-alter tx.to k f m) h.1)

    pub send_step-post :
        (i : Text) (d : VertexData Carrier) (m : Map Text (ScoreVertex Carrier)) (a p : ℕ)
        → HasRecipients m d.txs
        → send_step fl i d (graph_at 1 ags rel m a p)
          ≡ (none, graph_at 1 ags rel (alter i (settle d) (post fl d.txs m)) a p)
    unfolding send_step update_vertex
    send_step-post i d m a p h = ground (arith, send_txs-post d.txs zero_float m a p h)
