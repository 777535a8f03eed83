-- ===== src/Gravitas/Run/Sending.antt =====
-- gravitas/compute.go: superstep 1. Every vertex sends the values of its transactions, takes what
-- they cost from its value, and is frozen.
use mathlib.Core.Path.{subst}
use mathlib.Core.Option
use etherscan.Base.{
  ℕ, ◌+◌, ◌-◌, ◌≡◌, refl, ◌∙◌, Bool, true, false, Option, none, some, List, [], ◌==◌, ==_refl,
  ==_iff, if◌then◌else◌,
}
use etherscan.Base.Text.{Text, text_eq}
use etherscan.Base.Map.{Map, keys, lookup, alter, lookup-alter, has_key-alter, keys-alter}
use etherscan.Bsp.Queue.{discard_messages}
use etherscan.Bsp.Errors.{Error}
use etherscan.Bsp.Graph.{msg_queue, set_msg_queue, set_value, freeze}
use etherscan.Bsp.Step.{activate, discard, should_run, step_worker}
use etherscan.Bsp.Step.Laws.{step_worker_ok}
use etherscan.Aggregator.Int.{IntAccumulator}
use etherscan.Gravitas.Float.{BigFloat}
use etherscan.Gravitas.Compute.{VertexData, TxMessage, ScoreVertex, compute, compute_at}
use etherscan.Gravitas.Run.Mailbox.{
  HasRecipients, HasRecipients-keys, receive, incoming, post, keys-post, lookup-post,
}
use etherscan.Gravitas.Run.Vertex.{graph_at, compute_found, spent, settle, send_step-post}

module _ {F : Type 0} where
  abbrev pub activated : ScoreVertex F → ScoreVertex F
  activated v = record v { active = true }

  abbrev pub discarded : ℕ → ScoreVertex F → ScoreVertex F
  discarded b v = set_msg_queue b (discard_messages (msg_queue b v)) v

module _ (fl : BigFloat) where
  open fl use {Carrier, sub}

  -- The vertices after superstep 1 has run the vertex `i`.
  abbrev pub sent :
      Text → VertexData Carrier → Map Text (ScoreVertex Carrier) → Map Text (ScoreVertex Carrier)
  sent i d m = alter i (discarded 1) (alter i (settle fl d) (post fl d.txs (alter i activated m)))

  pub keys-sent :
      (i : Text) (d : VertexData Carrier) (m : Map Text (ScoreVertex Carrier))
      → keys (sent i d m) ≡ keys m
  keys-sent i d m = simp (keys-alter, keys-post fl)

  module _ (ags : Map Text IntAccumulator) (rel : Option (Text → TxMessage Carrier → Option Error))
      (i : Text) (v : ScoreVertex Carrier) (m : Map Text (ScoreVertex Carrier)) (a p : ℕ)
      (found : lookup i m ≡ some v) (h : HasRecipients m v.value.txs) where
    compute_sends : compute fl i (graph_at fl 1 ags rel (alter i activated m) a p) ≡ (
      none,
      graph_at fl 1 ags rel
          (alter i (settle fl v.value) (post fl v.value.txs (alter i activated m)))
          a
          p,
    )
    unfolding compute_at
    compute_sends =
        compute_found fl i (graph_at fl 1 ags rel (alter i activated m) a p) (activated v)
          (lookup-alter i i activated m ∙ rw (==_refl i, found))
        ∙ send_step-post fl ags rel i v.value (alter i activated m) a p (
            HasRecipients-keys m (alter i activated m) v.value.txs
              (λ k. has_key-alter i k activated m) h)

  -- An active vertex whose recipients are all local.
  pub worker_sends :
      (ags : Map Text IntAccumulator) (rel : Option (Text → TxMessage Carrier → Option Error))
      (i : Text) (err : Option Error) (v : ScoreVertex Carrier) (m : Map Text (ScoreVertex Carrier))
      (a p : ℕ)
      → lookup i m ≡ some v
      → v.active ≡ true
      → HasRecipients m v.value.txs
      → step_worker (compute fl) i err (graph_at fl 1 ags rel m a p)
        ≡ (err, graph_at fl 1 ags rel (sent i v.value m) (a + 1) (p - 1))
  unfolding activate discard
  worker_sends ags rel i err v m a p found on h =
      step_worker_ok (compute fl) i err (graph_at fl 1 ags rel m a p)
        (graph_at fl 1 ags rel
          (alter i (settle fl v.value) (post fl v.value.txs (alter i activated m))) (a + 1) p)
        (unfold should_run in rw found (rw on)) (compute_sends ags rel i v m (a + 1) p found h)

  -- What superstep 1 makes of the vertex `k` when it runs it.
  abbrev pub paid : ScoreVertex Carrier → ScoreVertex Carrier
  paid v = record v {
    value = record { value = sub v.value.value (spent fl v.value.txs); txs = [] };
    active = false;
    queue1 = record { msgs = []; latched_msg = none };
  }

  unfoldable pub pay_if :
      Bool → List (TxMessage Carrier) → ScoreVertex Carrier → ScoreVertex Carrier
  pay_if b msgs v = if b then paid (receive msgs v) else receive msgs v

  sent_if :
      (b : Bool) (o : Option (ScoreVertex Carrier)) (v : ScoreVertex Carrier)
      (msgs : List (TxMessage Carrier))
      → (b ≡ true → o ≡ some v)
      → (if b
          then Option.map (discarded 1) (
              if b
              then Option.map
                  (settle fl v.value)
                  (Option.map (receive msgs) (if b then Option.map activated o else o))
              else Option.map (receive msgs) (if b then Option.map activated o else o))
          else (if b
              then Option.map
                  (settle fl v.value)
                  (Option.map (receive msgs) (if b then Option.map activated o else o))
              else Option.map (receive msgs) (if b then Option.map activated o else o)))
        ≡ Option.map (pay_if b msgs) o
  unfolding pay_if set_msg_queue msg_queue discard_messages freeze set_value
  sent_if true o v msgs h = rw (h refl)
  sent_if false none v msgs h = refl
  sent_if false (some w) v msgs h = refl

  pub lookup-sent :
      (i k : Text) (v : ScoreVertex Carrier) (m : Map Text (ScoreVertex Carrier))
      → lookup i m ≡ some v
      → lookup k (sent i v.value m)
        ≡ Option.map (pay_if (i == k) (incoming fl k v.value.txs)) (lookup k m)
  lookup-sent i k v m found =
      simp (lookup-alter, lookup-post)
        (sent_if (i == k) (lookup k m) v (incoming fl k v.value.txs)
          (λ e. subst (λ j. lookup j m ≡ some v) ((==_iff i k).0 e) found))
