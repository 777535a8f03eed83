-- ===== src/Gravitas/Run/Counting.antt =====
-- gravitas/compute.go: superstep 0. Every vertex adds itself and its transactions to the
-- aggregators.
use mathlib.Core.Option
use etherscan.Base.{
  ℕ, ◌+◌, ◌-◌, ◌%◌, ◌≡◌, refl, sym, ap, ap₂, ◌∙◌, Bool, true, false, Option, none, some, List, [],
  ◌∷◌, arith, ◌==◌, ==_refl, if◌then◌else◌, All, length,
}
use etherscan.Base.Text.{Text, text_eq}
use etherscan.Base.Map.{Map, keys, lookup, alter, has_key, lookup-alter, keys-alter}
use etherscan.Bsp.Queue.{discard_messages}
use etherscan.Bsp.Errors.{Error}
use etherscan.Bsp.Graph.{msg_queue, set_msg_queue, aggregator}
use etherscan.Bsp.Step.{activate, discard, should_run, step_worker, run_workers}
use etherscan.Bsp.Step.Laws.{step_worker_ok, run_workers_cons}
use etherscan.TxGraph.Types.{Tx}
use etherscan.Aggregator.Int.{IntAccumulator, word}
use etherscan.Gravitas.Float.{BigFloat}
use etherscan.Gravitas.Compute.{
  VertexData, TxMessage, ScoreVertex, wallet_count, tx_count, aggregate_into, count_step, compute,
  compute_at,
}
use etherscan.Gravitas.Run.Vertex.{graph_at, compute_found}
use etherscan.Gravitas.Run.Sending.{activated, discarded}
use etherscan.Gravitas.Run.Counters.{
  has_key-bumped, HasCounters, tally, bumped, counted, HasCounters-counted, tally_wallets-counted,
  tally_txs-counted,
}

module _ (fl : BigFloat) where
  open fl use {Carrier}

  module _ (rel : Option (Text → TxMessage Carrier → Option Error))
      (m : Map Text (ScoreVertex Carrier)) where
    aggregate_into-bumped :
        (name : Text) (n : ℕ) (ags : Map Text IntAccumulator) (a p : ℕ)
        → has_key name ags ≡ true
        → aggregate_into name n (graph_at fl 0 ags rel m a p)
          ≡ (none, graph_at fl 0 (bumped name n ags) rel m a p)
    unfolding aggregate_into aggregator has_key
    aggregate_into-bumped name n ags a p h = ground arith

    count_step-counted :
        (d : VertexData Carrier) (ags : Map Text IntAccumulator) (a p : ℕ)
        → HasCounters ags
        → count_step d (graph_at fl 0 ags rel m a p)
          ≡ (none, graph_at fl 0 (counted d ags) rel m a p)
    unfolding count_step
    count_step-counted d ags a p h = ground (
      arith,
      aggregate_into-bumped wallet_count 1 ags a p h.0,
      aggregate_into-bumped tx_count (length d.txs % word) (bumped wallet_count 1 ags) a p
          (has_key-bumped wallet_count tx_count 1 ags h.1),
    )

  -- Every vertex is active, and has nothing in the buffer that superstep 0 reads.
  abbrev pub IsFresh : Map Text (ScoreVertex Carrier) → Type 0
  IsFresh m =
      (k : Text) (v : ScoreVertex Carrier)
      → lookup k m ≡ some v
      → (v.active ≡ true) × (v.queue0 ≡ record { msgs = []; latched_msg = none })

  abbrev rested : Text → Map Text (ScoreVertex Carrier) → Map Text (ScoreVertex Carrier)
  rested i m = alter i (discarded 0) (alter i activated m)

  rested_if :
      (b : Bool) (o : Option (ScoreVertex Carrier))
      → ((v : ScoreVertex Carrier)
          → o ≡ some v
          → (v.active ≡ true) × (v.queue0 ≡ record { msgs = []; latched_msg = none }))
      → (if b
          then Option.map (discarded 0) (if b then Option.map activated o else o)
          else (if b then Option.map activated o else o))
        ≡ o
  unfolding set_msg_queue msg_queue discard_messages
  rested_if false o h = refl
  rested_if true none h = refl
  rested_if true (some v) h =
      ap₂ (λ x q. some (record v { active = x; queue0 = q })) (sym (h v refl).0) (sym (h v refl).1)

  lookup-rested :
      (i k : Text) (m : Map Text (ScoreVertex Carrier))
      → IsFresh m
      → lookup k (rested i m) ≡ lookup k m
  lookup-rested i k m h = simp lookup-alter (rested_if (i == k) (lookup k m) (h k))

  IsFresh-rested :
      (i : Text) (m : Map Text (ScoreVertex Carrier)) → IsFresh m → IsFresh (rested i m)
  IsFresh-rested i m h k v e = h k v (sym (lookup-rested i k m h) ∙ e)

  worker_counts :
      (rel : Option (Text → TxMessage Carrier → Option Error)) (i : Text) (err : Option Error)
      (v : ScoreVertex Carrier) (ags : Map Text IntAccumulator) (m : Map Text (ScoreVertex Carrier))
      (a p : ℕ)
      → lookup i m ≡ some v
      → IsFresh m
      → HasCounters ags
      → step_worker (compute fl) i err (graph_at fl 0 ags rel m a p)
        ≡ (err, graph_at fl 0 (counted v.value ags) rel (rested i m) (a + 1) (p - 1))
  unfolding activate discard
  worker_counts rel i err v ags m a p found fresh h =
      step_worker_ok (compute fl) i err (graph_at fl 0 ags rel m a p)
        (graph_at fl 0 (counted v.value ags) rel (alter i activated m) (a + 1) p)
        (unfold should_run in rw found (rw ((fresh i v found).0)))
        (compute_found fl i (graph_at fl 0 ags rel (alter i activated m) (a + 1) p) (activated v)
            (lookup-alter i i activated m ∙ rw (==_refl i, found))
          ∙ unfold compute_at in
            count_step-counted rel (alter i activated m) v.value ags (a + 1) p h)

  module _ (outbox : Text → List Tx) where
    -- How many transactions the vertices of the list have.
    abbrev pub total_txs : List Text → ℕ
    total_txs [] = 0
    total_txs (i ∷ is) = length (outbox i) + total_txs is

    abbrev pub HasOutbox : Map Text (ScoreVertex Carrier) → Text → Type 0
    HasOutbox m i = (v : ScoreVertex Carrier) × (lookup i m ≡ some v) × (v.value.txs ≡ outbox i)

    -- What superstep 0 leaves, for a schedule of fresh vertices.
    abbrev pub Counted :
        Option (Text → TxMessage Carrier → Option Error)
        → List Text
        → Map Text IntAccumulator
        → Map Text (ScoreVertex Carrier)
        → ℕ
        → ℕ
        → Type 0
    Counted rel is ags m a p =
        (ags' : Map Text IntAccumulator) × (m' : Map Text (ScoreVertex Carrier)) × (run_workers
            (compute fl) is none (graph_at fl 0 ags rel m a p)
          ≡ (none, graph_at fl 0 ags' rel m' (a + length is) (p - length is)))
        × (keys m' ≡ keys m)
        × ((k : Text) → lookup k m' ≡ lookup k m)
        × HasCounters ags'
        × (tally wallet_count ags' % word ≡ (tally wallet_count ags + length is) % word)
        × (tally tx_count ags' % word ≡ (tally tx_count ags + total_txs is) % word)

    HasOutbox-rested :
        (i : Text) (is : List Text) (m : Map Text (ScoreVertex Carrier))
        → IsFresh m
        → All (HasOutbox m) is
        → All (HasOutbox (rested i m)) is
    HasOutbox-rested i [] m fresh h = tt
    HasOutbox-rested i (j ∷ is) m fresh ((v, found, txs), h) =
        ((v, lookup-rested i j m fresh ∙ found, txs), HasOutbox-rested i is m fresh h)

    pub count-All :
        (rel : Option (Text → TxMessage Carrier → Option Error)) (is : List Text)
        (ags : Map Text IntAccumulator) (m : Map Text (ScoreVertex Carrier)) (a p : ℕ)
        → IsFresh m
        → HasCounters ags
        → All (HasOutbox m) is
        → Counted rel is ags m a p
    unfolding run_workers
    count-All rel [] ags m a p fresh h out = (
      ags,
      m,
      ap₂ (λ x y. (none, graph_at fl 0 ags rel m x y)) (omega arith) (omega arith),
      refl,
      (λ k. refl),
      h,
      ap (λ (n : ℕ). n % word) (omega arith),
      ap (λ (n : ℕ). n % word) (omega arith),
    )
    count-All rel (i ∷ is) ags m a p fresh h ((v, found, txs), out) =
        let ags1 = counted v.value ags in
        let m1 = rested i m in
        let (ags', m', ran, same, at_k, h', wallets, txs') =
          count-All rel is ags1 m1 (a + 1) (p - 1) (IsFresh-rested i m fresh)
            (HasCounters-counted v.value ags h) (HasOutbox-rested i is m fresh out) in
        (
          ags',
          m',
          run_workers_cons (compute fl) i none (graph_at fl 0 ags rel m a p) is none
                (graph_at fl 0 ags1 rel m1 (a + 1) (p - 1))
                (worker_counts rel i none v ags m a p found fresh h)
              ∙ ran
              ∙ ap₂ (λ x y. (none, graph_at fl 0 ags' rel m' x y)) (omega arith) (omega arith),
          same ∙ keys-alter i (discarded 0) (alter i activated m) ∙ keys-alter i activated m,
          (λ k. at_k k ∙ lookup-rested i k m fresh),
          h',
          omega (arith, wallets, tally_wallets-counted v.value ags h),
          omega (arith, txs', tally_txs-counted v.value ags h, ap (length {A = Tx}) txs),
        )
