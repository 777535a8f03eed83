-- ===== src/Gravitas/Run/Sent.antt =====
-- gravitas/compute.go: superstep 1 over a whole schedule of vertices.
use mathlib.Core.Option
use etherscan.Base.{
  ℕ, ◌+◌, ◌-◌, ◌≡◌, refl, sym, ap, ap₂, ◌∙◌, Bool, true, false, ◌||◌, Option, none, some, List, [],
  ◌∷◌, ◌++◌, arith, ◌==◌, All, length, map_self,
}
use etherscan.Base.Text.{Text, text_eq}
use etherscan.Base.Member.{member, Distinct, member-cons_false, member_head_once}
use etherscan.Base.Map.{Map, keys, lookup, has_key}
use etherscan.Bsp.Errors.{Error}
use etherscan.Bsp.Step.{run_workers}
use etherscan.Bsp.Step.Laws.{run_workers_cons}
use etherscan.TxGraph.Types.{Tx}
use etherscan.Aggregator.Int.{IntAccumulator}
use etherscan.Gravitas.Float.{BigFloat}
use etherscan.Gravitas.Compute.{TxMessage, ScoreVertex, compute}
use etherscan.Gravitas.Run.Mailbox.{
  HasRecipients, HasRecipients-keys, receive, receive-receive, receive-nil, incoming,
}
use etherscan.Gravitas.Run.Vertex.{graph_at}
use etherscan.Gravitas.Run.Sending.{sent, keys-sent, worker_sends, paid, pay_if, lookup-sent}

module _ (fl : BigFloat) where
  open fl use {Carrier}

  pub pay_if-pay_if :
      (b c : Bool) (xs ys : List (TxMessage Carrier)) (v : ScoreVertex Carrier)
      → (b ≡ true → c ≡ false)
      → pay_if fl c ys (pay_if fl b xs v) ≡ pay_if fl (b || c) (xs ++ ys) v
  unfolding pay_if
  pay_if-pay_if true c xs ys v h = rw (h refl) (ap (paid fl) (receive-receive xs ys v))
  pay_if-pay_if false true xs ys v h = ap (paid fl) (receive-receive xs ys v)
  pay_if-pay_if false false xs ys v h = receive-receive xs ys v

  map-pay_if :
      (b c : Bool) (xs ys : List (TxMessage Carrier)) (o : Option (ScoreVertex Carrier))
      → (b ≡ true → c ≡ false)
      → Option.map (pay_if fl c ys) (Option.map (pay_if fl b xs) o)
        ≡ Option.map (pay_if fl (b || c) (xs ++ ys)) o
  map-pay_if b c xs ys none h = refl
  map-pay_if b c xs ys (some v) h = ap some (pay_if-pay_if b c xs ys v h)

  module _ (outbox : Text → List Tx) where
    -- The messages that the vertices of the list send to `k`.
    abbrev pub incoming_all : Text → List Text → List (TxMessage Carrier)
    incoming_all k [] = []
    incoming_all k (i ∷ is) = incoming fl k (outbox i) ++ incoming_all k is

    -- The vertex `i` is active and has its transactions, all to local vertices.
    abbrev pub IsReady : Map Text (ScoreVertex Carrier) → Text → Type 0
    IsReady m i =
        (v : ScoreVertex Carrier) × (lookup i m ≡ some v)
        × (v.active ≡ true)
        × HasRecipients m v.value.txs
        × (v.value.txs ≡ outbox i)

    has_key-sent :
        (i : Text) (v : ScoreVertex Carrier) (m : Map Text (ScoreVertex Carrier))
        → lookup i m ≡ some v
        → (k : Text) → has_key k (sent fl i v.value m) ≡ has_key k m
    unfolding has_key
    has_key-sent i v m found k = ground (arith, lookup-sent fl i k v m found)

    IsReady-sent :
        (i j : Text) (v : ScoreVertex Carrier) (m : Map Text (ScoreVertex Carrier))
        → lookup i m ≡ some v
        → (i == j) ≡ false
        → IsReady m j
        → IsReady (sent fl i v.value m) j
    unfolding pay_if
    IsReady-sent i j v m found ne (w, at_j, on, h, out) = (
      receive (incoming fl j v.value.txs) w,
      lookup-sent fl i j v m found ∙ rw (ne, at_j),
      on,
      HasRecipients-keys m (sent fl i v.value m) w.value.txs (has_key-sent i v m found) h,
      out,
    )

    All-IsReady-sent :
        (i : Text) (is : List Text) (v : ScoreVertex Carrier) (m : Map Text (ScoreVertex Carrier))
        → lookup i m ≡ some v
        → member i is ≡ false
        → All (IsReady m) is
        → All (IsReady (sent fl i v.value m)) is
    All-IsReady-sent i [] v m found out h = tt
    All-IsReady-sent i (j ∷ is) v m found out h = (
      IsReady-sent i j v m found (member-cons_false i j is out).0 h.0,
      All-IsReady-sent i is v m found (member-cons_false i j is out).1 h.1,
    )

    module _ (ags : Map Text IntAccumulator)
        (rel : Option (Text → TxMessage Carrier → Option Error)) where
      -- What superstep 1 leaves, for a schedule of ready vertices.
      abbrev pub Sent : List Text → Map Text (ScoreVertex Carrier) → ℕ → ℕ → Type 0
      Sent is m a p =
          (m' : Map Text (ScoreVertex Carrier)) × (run_workers (compute fl) is none
              (graph_at fl 1 ags rel m a p)
            ≡ (none, graph_at fl 1 ags rel m' (a + length is) (p - length is)))
          × (keys m' ≡ keys m)
          × ((k : Text)
              → lookup k m' ≡ Option.map (pay_if fl (member k is) (incoming_all k is)) (lookup k m))

      pub All-send :
          (is : List Text) (m : Map Text (ScoreVertex Carrier)) (a p : ℕ)
          → Distinct is
          → All (IsReady m) is
          → Sent is m a p
      unfolding run_workers member
      All-send [] m a p d h = (
        m,
        ap₂ (λ x y. (none, graph_at fl 1 ags rel m x y)) (omega arith) (omega arith),
        refl,
        λ k. sym (map_self (pay_if fl false []) (unfold pay_if in receive-nil) (lookup k m)),
      )
      All-send (i ∷ is) m a p d ((v, found, on, hr, out), h) =
          let (m', ran, same, at_k) =
            All-send is (sent fl i v.value m) (a + 1) (p - 1) d.1
              (All-IsReady-sent i is v m found d.0 h) in
          (
            m',
            run_workers_cons (compute fl) i none (graph_at fl 1 ags rel m a p) is none
                  (graph_at fl 1 ags rel (sent fl i v.value m) (a + 1) (p - 1))
                  (worker_sends fl ags rel i none v m a p found on hr)
                ∙ ran
                ∙ ap₂ (λ x y. (none, graph_at fl 1 ags rel m' x y)) (omega arith) (omega arith),
            same ∙ keys-sent fl i v.value m,
            λ k.
                at_k k
                ∙ rw (lookup-sent fl i k v m found, ← out)
                    (map-pay_if (i == k) (member k is) (incoming fl k v.value.txs)
                      (incoming_all k is) (lookup k m) (member_head_once k i is d.0)),
          )
