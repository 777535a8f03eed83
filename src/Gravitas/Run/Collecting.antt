-- ===== src/Gravitas/Run/Collecting.antt =====
-- gravitas/compute.go: superstep 2. Every vertex with messages adds their values to its own.
use mathlib.Core.Path.{subst}
use mathlib.Core.Option
use mathlib.Core.List.{foldl, reverse}
use etherscan.Base.{
  ℕ, ◌+◌, ◌-◌, ◌≡◌, refl, sym, ap, ◌∙◌, Bool, true, false, ◌||◌, Option, none, some, List, [], ◌∷◌,
  arith, ◌==◌, ==_refl, ==_iff, if◌then◌else◌, All, length, Bool-cases, inl, inr, map_self,
}
use etherscan.Base.Text.{Text, text_eq}
use etherscan.Base.Member.{member, Distinct, member-cons_false, member_head_once}
use etherscan.Base.Map.{Map, keys, lookup, alter, lookup-alter, keys-alter}
use etherscan.Bsp.Queue.{InMemoryQueue, pending_messages, discard_messages, fold_messages}
use etherscan.Bsp.Queue.Lifo.{fold_messages-lifo}
use etherscan.Bsp.Errors.{Error}
use etherscan.Bsp.Graph.{msg_queue, set_msg_queue, set_value, freeze, update_vertex}
use etherscan.Bsp.Step.{activate, discard, should_run, step_worker, run_workers}
use etherscan.Bsp.Step.Laws.{step_worker_ok, step_worker_idle, run_workers_cons}
use etherscan.Aggregator.Int.{IntAccumulator}
use etherscan.Gravitas.Float.{BigFloat}
use etherscan.Gravitas.Compute.{
  TxMessage, ScoreVertex, add_message, receive_into, receive_step, compute, compute_at,
}
use etherscan.Gravitas.Run.Vertex.{graph_at, compute_found}
use etherscan.Gravitas.Run.Sending.{activated, discarded}

module _ (fl : BigFloat) where
  open fl use {Carrier, set}

  -- The value after the messages, of which the last one comes first.
  abbrev pub gathered : Carrier → List (TxMessage Carrier) → Carrier
  gathered value msgs = foldl (add_message fl) (set value) (reverse msgs)

  abbrev pub gained : ScoreVertex Carrier → ScoreVertex Carrier
  gained v = record v {
    value = record (v.value) { value = gathered v.value.value v.queue0.msgs };
    active = false;
    queue0 = record { msgs = []; latched_msg = none };
  }

  -- What superstep 2 makes of an inactive vertex.
  unfoldable pub collect : ScoreVertex Carrier → ScoreVertex Carrier
  collect v = if pending_messages v.queue0 then gained v else v

  module _ (ags : Map Text IntAccumulator)
      (rel : Option (Text → TxMessage Carrier → Option Error)) where
    -- The final queue is that of the loop, before it is discarded.
    abbrev received :
        Text
        → ScoreVertex Carrier
        → InMemoryQueue (TxMessage Carrier)
        → Map Text (ScoreVertex Carrier)
        → Map Text (ScoreVertex Carrier)
    received i v q m =
        alter i (λ w. receive_into v.value w (gathered v.value.value v.queue0.msgs, q))
          (alter i activated m)

    receive_step_lem :
        (i : Text) (v : ScoreVertex Carrier) (m : Map Text (ScoreVertex Carrier)) (a p : ℕ)
        (sum : Carrier) (q : InMemoryQueue (TxMessage Carrier))
        → fold_messages (length v.queue0.msgs + 1) (add_message fl) (set v.value.value) v.queue0
          ≡ some (sum, q)
        → receive_step fl i v (graph_at fl 2 ags rel m a p)
          ≡ (none, graph_at fl 2 ags rel (alter i (λ w. receive_into v.value w (sum, q)) m) a p)
    unfolding receive_step update_vertex msg_queue
    receive_step_lem i v m a p sum q h = rw (h, receive_step)

    compute_receives :
        (i : Text) (v : ScoreVertex Carrier) (m : Map Text (ScoreVertex Carrier)) (a p : ℕ)
        → lookup i m ≡ some v
        → (q : InMemoryQueue (TxMessage Carrier)) × (compute fl i
              (graph_at fl 2 ags rel (alter i activated m) a p)
            ≡ (none, graph_at fl 2 ags rel (received i v q m) a p))
    unfolding compute_at
    compute_receives i v m a p found =
        let (q, folded, _) =
          fold_messages-lifo (add_message fl) (length v.queue0.msgs + 1) (set v.value.value)
            v.queue0 (omega arith) in
        (
          q,
          compute_found fl i (graph_at fl 2 ags rel (alter i activated m) a p) (activated v)
                (lookup-alter i i activated m ∙ rw (==_refl i, found))
              ∙ receive_step_lem i (activated v) (alter i activated m) a p
                  (gathered v.value.value v.queue0.msgs) q folded,
        )

    worker_collects :
        (i : Text) (err : Option Error) (v : ScoreVertex Carrier)
        (m : Map Text (ScoreVertex Carrier)) (a p : ℕ)
        → lookup i m ≡ some v
        → pending_messages v.queue0 ≡ true
        → (q : InMemoryQueue (TxMessage Carrier)) × (step_worker
              (compute fl)
              i
              err
              (graph_at fl 2 ags rel m a p)
            ≡ (
              err,
              graph_at fl 2 ags rel (alter i (discarded 0) (received i v q m)) (a + 1) (p - 1),
            ))
    unfolding activate discard should_run msg_queue
    worker_collects i err v m a p found pending =
        let (q, computed) = compute_receives i v m (a + 1) p found in
        (
          q,
          step_worker_ok (compute fl) i err (graph_at fl 2 ags rel m a p)
              (graph_at fl 2 ags rel (received i v q m) (a + 1) p) (ground (arith, found)) computed,
        )

  unfoldable pub collect_if : Bool → ScoreVertex Carrier → ScoreVertex Carrier
  collect_if b v = if b then collect v else v

  received_if :
      (b : Bool) (o : Option (ScoreVertex Carrier)) (v : ScoreVertex Carrier)
      (q : InMemoryQueue (TxMessage Carrier))
      → pending_messages v.queue0 ≡ true
      → (b ≡ true → o ≡ some v)
      → (if b
          then Option.map (discarded 0) (
              if b
              then Option.map
                  (λ w. receive_into v.value w (gathered v.value.value v.queue0.msgs, q))
                  (if b then Option.map activated o else o)
              else (if b then Option.map activated o else o))
          else (if b
              then Option.map
                  (λ w. receive_into v.value w (gathered v.value.value v.queue0.msgs, q))
                  (if b then Option.map activated o else o)
              else (if b then Option.map activated o else o)))
        ≡ Option.map (collect_if b) o
  unfolding collect_if collect set_msg_queue msg_queue discard_messages freeze set_value
      receive_into
  received_if true o v q pending h = rw (h refl) (rw pending)
  received_if false none v q pending h = refl
  received_if false (some w) v q pending h = refl

  idle_if :
      (b : Bool) (o : Option (ScoreVertex Carrier)) (v : ScoreVertex Carrier)
      → pending_messages v.queue0 ≡ false
      → (b ≡ true → o ≡ some v)
      → Option.map (collect_if b) o ≡ o
  unfolding collect_if collect
  idle_if true o v idle h = rw (h refl) (rw idle)
  idle_if false none v idle h = refl
  idle_if false (some w) v idle h = refl

  map-collect_if :
      (b c : Bool) (o : Option (ScoreVertex Carrier))
      → (b ≡ true → c ≡ false)
      → Option.map (collect_if c) (Option.map (collect_if b) o) ≡ Option.map (collect_if (b || c)) o
  unfolding collect_if
  map-collect_if b c none h = refl
  map-collect_if true c (some v) h = rw (h refl)
  map-collect_if false c (some v) h = refl

  abbrev pub IsSettled : Map Text (ScoreVertex Carrier) → Text → Type 0
  IsSettled m i = (v : ScoreVertex Carrier) × (lookup i m ≡ some v) × (v.active ≡ false)

  module _ (ags : Map Text IntAccumulator)
      (rel : Option (Text → TxMessage Carrier → Option Error)) where
    -- What superstep 2 leaves, for a schedule of settled vertices.
    abbrev pub Collected : List Text → Map Text (ScoreVertex Carrier) → ℕ → ℕ → Type 0
    Collected is m a p =
        (a' : ℕ) × (m' : Map Text (ScoreVertex Carrier)) × (run_workers (compute fl) is none
            (graph_at fl 2 ags rel m a p)
          ≡ (none, graph_at fl 2 ags rel m' a' (p - length is)))
        × (keys m' ≡ keys m)
        × ((k : Text) → lookup k m' ≡ Option.map (collect_if (member k is)) (lookup k m))

    -- One vertex: with messages or without.
    one_collects :
        (i : Text) (err : Option Error) (m : Map Text (ScoreVertex Carrier)) (a p : ℕ)
        → IsSettled m i
        → (a' : ℕ) × (m' : Map Text (ScoreVertex Carrier)) × (step_worker
              (compute fl)
              i
              err
              (graph_at fl 2 ags rel m a p)
            ≡ (err, graph_at fl 2 ags rel m' a' (p - 1)))
          × (keys m' ≡ keys m)
          × ((k : Text) → lookup k m' ≡ Option.map (collect_if (i == k)) (lookup k m))
    one_collects i err m a p (v, found, off) = elim (Bool-cases (pending_messages v.queue0)) [
      | inl pending ↦
          let (q, ran) = worker_collects ags rel i err v m a p found pending in
          (
            a + 1,
            alter i (discarded 0) (received ags rel i v q m),
            ran,
            simp keys-alter,
            λ k. simp lookup-alter (
                received_if (i == k) (lookup k m) v q pending
                  (λ e. subst (λ j. lookup j m ≡ some v) ((==_iff i k).0 e) found)),
          )
      | inr idle ↦ (
        a,
        m,
        step_worker_idle (compute fl) i err (graph_at fl 2 ags rel m a p)
            (unfold should_run msg_queue in ground (arith, found, off, idle)),
        refl,
        λ k. sym (
            idle_if (i == k) (lookup k m) v idle
              (λ e. subst (λ j. lookup j m ≡ some v) ((==_iff i k).0 e) found)),
      )
    ]

    IsSettled-collected :
        (i : Text) (is : List Text) (m m' : Map Text (ScoreVertex Carrier))
        → ((k : Text) → lookup k m' ≡ Option.map (collect_if (i == k)) (lookup k m))
        → member i is ≡ false
        → All (IsSettled m) is
        → All (IsSettled m') is
    unfolding collect_if
    IsSettled-collected i [] m m' at_k out h = tt
    IsSettled-collected i (j ∷ is) m m' at_k out ((w, at_j, off), h) =
        let (ne, out') = member-cons_false i j is out in
        ((w, at_k j ∙ rw (ne, at_j), off), IsSettled-collected i is m m' at_k out' h)

    pub All-collect :
        (is : List Text) (m : Map Text (ScoreVertex Carrier)) (a p : ℕ)
        → Distinct is
        → All (IsSettled m) is
        → Collected is m a p
    unfolding run_workers member
    All-collect [] m a p d h = (
      a,
      m,
      ap (λ x. (none, graph_at fl 2 ags rel m a x)) (omega arith),
      refl,
      λ k. sym (map_self (collect_if false) (λ v. unfold collect_if in refl) (lookup k m)),
    )
    All-collect (i ∷ is) m a p d h =
        let (a1, m1, ran1, same1, at1) = one_collects i none m a p h.0 in
        let (a', m', ran, same, at_k) =
          All-collect is m1 a1 (p - 1) d.1 (IsSettled-collected i is m m1 at1 d.0 h.1) in
        (
          a',
          m',
          run_workers_cons (compute fl) i none (graph_at fl 2 ags rel m a p) is none
                (graph_at fl 2 ags rel m1 a1 (p - 1)) ran1
              ∙ ran
              ∙ ap (λ x. (none, graph_at fl 2 ags rel m' a' x)) (omega arith),
          same ∙ same1,
          λ k.
              at_k k
              ∙ ap (Option.map (collect_if (member k is))) (at1 k)
              ∙ map-collect_if (i == k) (member k is) (lookup k m) (member_head_once k i is d.0),
        )
