-- ===== src/Gravitas/Run/Whole.antt =====
-- gravitas/: the run of the executor, from superstep 3 back to superstep 0.
use mathlib.Core.Option
use mathlib.Core.Option.{map-map}
use etherscan.Base.{
  ◌+◌, ==_refl, ◌∷◌, ℕ, suc, ◌-◌, ◌≡◌, ◌≤◌, ◌<◌, refl, sym, ap, ◌∙◌, true, false, Option, none,
  some, List, [], arith, nat_eqb, length, negsuc, Bool-cases, inl, inr, Option-cases,
}
use etherscan.Base.Text.{Text, text_eq}
use etherscan.Base.Member.{member, Distinct, All-of_members}
use etherscan.Base.Map.{keys, Map, lookup, has_key, has_key-lookup, length_of_keys}
use etherscan.Bsp.Errors.{Error}
use etherscan.Bsp.Step.Laws.{run_workers_idle}
use etherscan.Bsp.Executor.{run, advance}
use etherscan.Aggregator.Int.{IntAccumulator}
use etherscan.TxGraph.Types.{Tx}
use etherscan.Gravitas.Run.Mailbox.{HasRecipients, receive}
use etherscan.Gravitas.Run.Sending.{paid, pay_if}
use etherscan.Gravitas.Run.Sent.{incoming_all, All-send}
use etherscan.Gravitas.Float.{BigFloat}
use etherscan.Gravitas.Compute.{TxMessage, ScoreGraph, ScoreVertex, compute}
use etherscan.Gravitas.Run.Vertex.{graph_at}
use etherscan.Gravitas.Run.Collecting.{collect, collect_if, All-collect}
use etherscan.Gravitas.Run.Rounds.{score_executor, started, round-workers, run_stops, run_goes_on}
use etherscan.Gravitas.Run.Done.{
  scored, IsDone, idle_at, map_at_keys, has_key_of_ne, collected-IsDone,
}

-- A schedule lists every vertex of the graph once.

abbrev pub IsFair : {F : Type 0} → (ScoreGraph F → List Text) → Type 0
IsFair {F} schedule =
    (g : ScoreGraph F)
    → Distinct (schedule g) × ((k : Text) → member k (schedule g) ≡ has_key k g.vertices)

module _ (fl : BigFloat) where
  open fl use {Carrier}

  -- The order `is` has each vertex of the map once.
  pub record IsOrder (is : List Text) (m : Map Text (ScoreVertex Carrier)) : Type 0 where
    pub distinct : Distinct is
    pub lists : (k : Text) → member k is ≡ has_key k m

  pub nonempty_order :
      (is : List Text) (m : Map Text (ScoreVertex Carrier))
      → ((k : Text) → member k is ≡ has_key k m)
      → 0 < length m
      → 0 < length is
  unfolding has_key lookup member
  nonempty_order (i ∷ is) m lists h = omega arith
  nonempty_order [] [] lists h = h
  nonempty_order [] ((k, v) ∷ m) lists h = ground (arith, lists k, ==_refl k)

  -- A vertex that superstep 1 can run: active, and with all recipients local.
  abbrev pub IsOpen : Map Text (ScoreVertex Carrier) → Type 0
  IsOpen m =
      (k : Text) (v : ScoreVertex Carrier)
      → lookup k m ≡ some v
      → (v.active ≡ true) × HasRecipients m v.value.txs

  -- The transactions of a vertex.
  abbrev pub outbox_of : Map Text (ScoreVertex Carrier) → Text → List Tx
  outbox_of m k = elim (lookup k m) [ none ↦ [] | some v ↦ v.value.txs ]

  pub outbox_of_found :
      (k : Text) (v : ScoreVertex Carrier) (m : Map Text (ScoreVertex Carrier))
      → lookup k m ≡ some v
      → v.value.txs ≡ outbox_of m k
  outbox_of_found k v m h = rw (h, outbox_of)

  paid-IsDone :
      (m m' : Map Text (ScoreVertex Carrier)) (msgs : Text → List (TxMessage Carrier))
      → ((k : Text) → lookup k m' ≡ Option.map (λ v. paid fl (receive (msgs k) v)) (lookup k m))
      → IsDone fl m'
  paid-IsDone m m' msgs at_k k v e = elim (Option-cases (lookup k m)) [
    | inl none_at ↦ ground (arith, at_k k)
    | inr (w, some_at) ↦ ground (arith, at_k k)
  ]

  module _ (ctx_err : ℕ → Option Error) (live : (s : ℕ) → ctx_err s ≡ none)
      (schedule : ScoreGraph Carrier → List Text) (fair : IsFair schedule)
      (rel : Option (Text → TxMessage Carrier → Option Error)) where
    -- Superstep 3: no vertex runs, and the run ends.
    run_from3 :
        (f n : ℕ) (ags : Map Text IntAccumulator) (m : Map Text (ScoreVertex Carrier)) (a p : ℕ)
        → IsDone fl m
        → 0 < length m
        → (g' : ScoreGraph Carrier) × (run
              (suc f)
              (score_executor fl ctx_err schedule)
              (negsuc n)
              (graph_at fl 3 ags rel m a p)
            ≡ some (none, g'))
          × (g'.superstep ≡ 3)
          × (g'.vertices ≡ m)
    run_from3 f n ags m a p done some_vertex =
        let g = graph_at fl 3 ags rel m a p in
        let is = schedule g in
        let g' = graph_at fl 3 ags rel m 0 (length m - length is) in
        (
          g',
          run_stops (score_executor fl ctx_err schedule) f n g g' none (
              round-workers fl ctx_err schedule g g' (live 3) some_vertex (
                run_workers_idle (compute fl) is none (started fl ctx_err schedule g)
                  (All-of_members _ is (λ i _. idle_at fl m done i)))),
          refl,
          refl,
        )

    -- Superstep 2: the vertices collect their messages, and the run ends in this superstep or in
    -- the next.
    run_from2 :
        (f n : ℕ) (ags : Map Text IntAccumulator) (m : Map Text (ScoreVertex Carrier)) (a p : ℕ)
        → IsDone fl m
        → 0 < length m
        → (g' : ScoreGraph Carrier) × (run
              (suc (suc f))
              (score_executor fl ctx_err schedule)
              (negsuc n)
              (graph_at fl 2 ags rel m a p)
            ≡ some (none, g'))
          × (g'.superstep ≤ 3)
          × (keys g'.vertices ≡ keys m)
          × ((k : Text) → lookup k g'.vertices ≡ Option.map (collect fl) (lookup k m))
    unfolding advance collect_if
    run_from2 f n ags m a p done some_vertex =
        let ex = score_executor fl ctx_err schedule in
        let g = graph_at fl 2 ags rel m a p in
        let (distinct, lists) = fair g in
        let (a', m', ran, same, at_k) =
          All-collect fl ags rel (schedule g) m 0 (length m) distinct (
            All-of_members _ (schedule g) (λ i listed.
              let (v, found) = has_key-lookup i m (sym (lists i) ∙ listed) in
              (v, found, (done i v found).0))) in
        let g2 = graph_at fl 2 ags rel m' a' (length m - length (schedule g)) in
        let all_k : ((k : Text) → lookup k m' ≡ Option.map (collect fl) (lookup k m)) = (λ k.
          at_k k
          ∙ map_at_keys fl (collect_if fl) (member k (schedule g)) (lookup k m)
              (λ ne. lists k ∙ has_key_of_ne fl k m ne)) in
        let rounded = round-workers fl ctx_err schedule g g2 (live 2) some_vertex ran in
        elim (Bool-cases (nat_eqb a' 0)) [
          | inl none_active ↦ (
            g2,
            run_stops ex (suc f) n g g2 none (rw none_active at rounded),
            omega arith,
            same,
            all_k,
          )
          | inr some_active ↦
              let (g', ran3, at3, same3) =
                run_from3 f (suc n) ags m' a' (length m - length (schedule g))
                  (collected-IsDone fl m m' done all_k) (omega (arith, length_of_keys m m' same)) in
              (
                g',
                run_goes_on ex (suc f) n g g2 none (rw some_active at rounded) ∙ ran3,
                omega (arith, at3),
                ap keys same3 ∙ same,
                λ k. ap (lookup k) same3 ∙ all_k k,
              )
        ]

    -- Superstep 1: the vertices send, and the messages are collected in superstep 2.
    pub run_from1 :
        (f n : ℕ) (ags : Map Text IntAccumulator) (m : Map Text (ScoreVertex Carrier)) (a p : ℕ)
        → IsOpen m
        → 0 < length m
        → (is : List Text) × (g' : ScoreGraph Carrier) × IsOrder is m
          × (run
                (suc (suc (suc f)))
                (score_executor fl ctx_err schedule)
                (negsuc n)
                (graph_at fl 1 ags rel m a p)
              ≡ some (none, g'))
          × (g'.superstep ≤ 3)
          × (keys g'.vertices ≡ keys m)
          × ((k : Text)
              → lookup k g'.vertices
                ≡ Option.map (scored fl (incoming_all fl (outbox_of m) k is)) (lookup k m))
    unfolding advance pay_if scored
    run_from1 f n ags m a p ready some_vertex =
        let ex = score_executor fl ctx_err schedule in
        let g = graph_at fl 1 ags rel m a p in
        let is = schedule g in
        let (distinct, lists) = fair g in
        let (m', ran, same, at_k) = All-send fl (outbox_of m) ags rel is m 0 (length m) distinct (
          All-of_members _ is (λ i listed.
            let (v, found) = has_key-lookup i m (sym (lists i) ∙ listed) in
            (v, found, (ready i v found).0, (ready i v found).1, outbox_of_found i v m found))) in
        let all_k : ((k : Text)
            → lookup k m'
              ≡ Option.map (λ v. paid fl (receive (incoming_all fl (outbox_of m) k is) v))
                  (lookup k m)) =
          (λ k.
            at_k k
            ∙ map_at_keys fl (λ b v. pay_if fl b (incoming_all fl (outbox_of m) k is) v)
                (member k is) (lookup k m) (λ ne. lists k ∙ has_key_of_ne fl k m ne)) in
        let left = length m - length is in
        let g1 = graph_at fl 1 ags rel m' (0 + length is) left in
        let rounded = round-workers fl ctx_err schedule g g1 (live 1) some_vertex ran in
        let busy : (nat_eqb (0 + length is) 0 ≡ false) =
          let more = nonempty_order is m lists some_vertex in ground arith in
        let (g', ran2, at2, keys2, all2) =
          run_from2 f (suc n) ags m' (0 + length is) left
            (paid-IsDone m m' (λ k. incoming_all fl (outbox_of m) k is) all_k)
            (omega (arith, length_of_keys m m' same)) in
        (
          is,
          g',
          record { distinct = distinct; lists = lists },
          run_goes_on ex (suc (suc f)) n g g1 none (rw busy at rounded) ∙ ran2,
          at2,
          keys2 ∙ same,
          λ k.
              all2 k
              ∙ ap (Option.map (collect fl)) (all_k k)
              ∙ map-map (collect fl) (λ v. paid fl (receive (incoming_all fl (outbox_of m) k is) v))
                  (lookup k m),
        )
