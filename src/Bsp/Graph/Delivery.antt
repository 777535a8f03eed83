-- ===== src/Bsp/Graph/Delivery.antt =====
-- bspgraph/graph.go: where SendMessage and BroadcastToNeighbors put their messages.
use mathlib.Core.Option
use etherscan.Base.{
  zero, suc, List, [], ◌∷◌, All, ◌∙◌, refl, ℕ, zero, suc, ◌+◌, ◌%◌, ◌≡◌, refl, Bool, true, false,
  Option, none, some, List, [], ◌∷◌, arith, ◌==◌, if◌then◌else◌, All, ◌∙◌,
}
use etherscan.Base.Text.{Text, text_eq}
use etherscan.Base.Map.{Map, lookup, alter, has_key, lookup-alter, has_key-alter, has_key-lookup}
use etherscan.Bsp.Errors.{Error, wrapped, invalid_message_destination, is_destination_is_local}
use etherscan.Bsp.Graph.{
  Edge, Vertex, Graph, msg_queue, deliver, update_vertex, send_message, broadcast_edges,
  broadcast_to_neighbors,
}

-- The buffer that a superstep reads, and the one that it writes.

abbrev pub reading : ℕ → ℕ
reading superstep = superstep % 2

abbrev pub writing : ℕ → ℕ
writing superstep = (superstep + 1) % 2

module _ {V M A : Type 0} where
  pub lookup-update_vertex :
      (i k : Text) (f : Vertex V M → Vertex V M) (g : Graph V M A)
      → lookup k (update_vertex i f g).vertices
        ≡ (if i == k then Option.map f (lookup k g.vertices) else lookup k g.vertices)
  unfolding update_vertex
  lookup-update_vertex i k f g = lookup-alter i k f g.vertices

  -- A message to a local vertex is put at the end of the buffer that the next superstep reads; no
  -- other vertex and no other part of the graph changes.
  pub send_message_local :
      (dst : Text) (msg : M) (g : Graph V M A) {w : Vertex V M}
      → lookup dst g.vertices ≡ some w
      → send_message dst msg g ≡ (none, update_vertex dst (deliver (writing g.superstep) msg) g)
  unfolding send_message
  send_message_local dst msg g h = rw (h, send_message)

module _ {V M : Type 0} where
  pub msg_queue-deliver :
      (s : ℕ) (msg : M) (v : Vertex V M)
      → msg_queue (reading s) (deliver (writing s) msg v) ≡ msg_queue (reading s) v
  unfolding deliver
  msg_queue-deliver s msg v = ground arith

module _ {V M A : Type 0} where
  -- Sending never touches the buffer that the current superstep reads, at any vertex, whether the
  -- destination is local or not.
  pub send_message_isolated :
      (dst k : Text) (msg : M) (g : Graph V M A)
      → Option.map (msg_queue (reading g.superstep)) (lookup k (send_message dst msg g).1.vertices)
        ≡ Option.map (msg_queue (reading g.superstep)) (lookup k g.vertices)
  unfolding send_message
  send_message_isolated dst k msg g = ground (
    arith,
    lookup-alter dst k (deliver (writing g.superstep) msg) g.vertices,
    msg_queue-deliver g.superstep msg,
  )

  -- A message that no local vertex takes leaves the graph as it is. It is refused as an invalid
  -- destination if there is no relayer or the relayer calls the destination local; any other answer
  -- of the relayer is passed on.
  pub send_message_remote :
      (dst : Text) (msg : M) (g : Graph V M A)
      → lookup dst g.vertices ≡ none
      → let invalid = some (wrapped dst invalid_message_destination) in
        ((send_message dst msg g).1 ≡ g)
        × (g.relayer ≡ none → (send_message dst msg g).0 ≡ invalid)
        × ((relay : Text → M → Option Error)
            → g.relayer ≡ some relay
            → (relay dst msg ≡ none → (send_message dst msg g).0 ≡ none)
              × ((e : Error)
                  → relay dst msg ≡ some e
                  → (is_destination_is_local e ≡ true → (send_message dst msg g).0 ≡ invalid)
                    × (is_destination_is_local e ≡ false → (send_message dst msg g).0 ≡ some e)))
  unfolding send_message
  send_message_remote dst msg g h = (
    rw (h, send_message),
    (λ r. ground arith),
    λ relay r. ((λ p. ground arith), λ e p. ((λ q. ground arith), (λ q. ground arith))),
  )

module _ {V : Type 0} where
  -- How many edges lead to `k`.
  abbrev pub copies : Text → List (Edge V) → ℕ
  copies k [] = 0
  copies k (e ∷ es) = if e.dst_id == k then suc (copies k es) else copies k es

  -- All edges lead to keys of the map.
  abbrev pub HasTargets : {W : Type 0} → Map Text W → List (Edge V) → Type 0
  HasTargets m = All (λ e. has_key e.dst_id m ≡ true)

  HasTargets-alter :
      {W : Type 0} (k : Text) (f : W → W) (m : Map Text W) (es : List (Edge V))
      → HasTargets m es
      → HasTargets (alter k f m) es
  HasTargets-alter k f m [] h = tt
  HasTargets-alter k f m (e ∷ es) h =
      (has_key-alter k e.dst_id f m ∙ h.0, HasTargets-alter k f m es h.1)

module _ {V M : Type 0} where
  abbrev pub deliver_times : ℕ → ℕ → M → Vertex V M → Vertex V M
  deliver_times zero buffer msg v = v
  deliver_times (suc n) buffer msg v = deliver_times n buffer msg (deliver buffer msg v)

module _ {V M : Type 0} where
  -- The vertices after a broadcast along the edges.
  abbrev spread : ℕ → M → List (Edge V) → Map Text (Vertex V M) → Map Text (Vertex V M)
  spread buffer msg [] m = m
  spread buffer msg (e ∷ es) m = spread buffer msg es (alter e.dst_id (deliver buffer msg) m)

  map-deliver_times-if :
      (b : Bool) (n buffer : ℕ) (msg : M) (o : Option (Vertex V M))
      → Option.map (deliver_times n buffer msg) (if b then Option.map (deliver buffer msg) o else o)
        ≡ Option.map (deliver_times (if b then suc n else n) buffer msg) o
  map-deliver_times-if true n buffer msg none = refl
  map-deliver_times-if true n buffer msg (some v) = refl
  map-deliver_times-if false n buffer msg o = refl

  lookup-spread :
      (k : Text) (buffer : ℕ) (msg : M) (es : List (Edge V)) (m : Map Text (Vertex V M))
      → lookup k (spread buffer msg es m)
        ≡ Option.map (deliver_times (copies k es) buffer msg) (lookup k m)
  lookup-spread k buffer msg [] m = ground arith
  lookup-spread k buffer msg (e ∷ es) m =
      rw (lookup-spread k buffer msg es, lookup-alter)
        (map-deliver_times-if (e.dst_id == k) (copies k es) buffer msg (lookup k m))

module _ {V M A : Type 0} where
  broadcast_edges_cons :
      (e : Edge V) (es : List (Edge V)) (msg : M) (g g' : Graph V M A)
      → send_message e.dst_id msg g ≡ (none, g')
      → broadcast_edges (e ∷ es) msg g ≡ broadcast_edges es msg g'
  unfolding broadcast_edges
  broadcast_edges_cons e es msg g g' h = ground arith

  broadcast_edges-spread :
      (es : List (Edge V)) (msg : M) (g : Graph V M A)
      → HasTargets g.vertices es
      → broadcast_edges es msg g
        ≡ (none, record g { vertices = spread (writing g.superstep) msg es g.vertices })
  unfolding broadcast_edges update_vertex
  broadcast_edges-spread [] msg g h = refl
  broadcast_edges-spread (e ∷ es) msg g h =
      let f = deliver (writing g.superstep) msg in
      let (w, found) = has_key-lookup e.dst_id g.vertices h.0 in
      let rest = HasTargets-alter e.dst_id f g.vertices es h.1 in
      broadcast_edges_cons e es msg g (update_vertex e.dst_id f g)
        (send_message_local e.dst_id msg g found)
      ∙ broadcast_edges-spread es msg (update_vertex e.dst_id f g) rest

  -- If all edges of a vertex lead to local vertices, the broadcast succeeds, and each vertex gets
  -- the message once for each edge that leads to it, in the buffer of the next superstep.
  pub broadcast_to_neighbors_delivers :
      (v : Vertex V M) (msg : M) (g : Graph V M A) (k : Text)
      → HasTargets g.vertices v.edges
      → let (err, g') = broadcast_to_neighbors v msg g in
        (err ≡ none)
        × (lookup k g'.vertices
            ≡ Option.map
                (deliver_times (copies k v.edges) (writing g.superstep) msg)
                (lookup k g.vertices))
  unfolding broadcast_to_neighbors
  broadcast_to_neighbors_delivers v msg g k h =
      rw (broadcast_edges-spread v.edges msg g h)
        (refl, lookup-spread k (writing g.superstep) msg v.edges g.vertices)
