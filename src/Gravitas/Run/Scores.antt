-- ===== src/Gravitas/Run/Scores.antt =====
-- gravitas/: the run of a calculator from its start.
use mathlib.Core.Path.{fun_ext}
use mathlib.Core.Option
use etherscan.Base.{
  inr, inl, ◌⊎◌, ℕ, zero, suc, ◌+◌, ◌-◌, ◌≡◌, ◌≤◌, ◌<◌, refl, sym, ap, ap₂, ◌∙◌, false, Option,
  none, some, List, [], ◌∷◌, arith, nat_eqb, length, negsuc,
}
use etherscan.Base.Text.{Text, text_eq, text_eqb}
use etherscan.Base.Member.{member, All-of_members}
use etherscan.Base.Map.{
  keys, lookup-insert, Map, lookup, insert, has_key, has_key-lookup, has_key_same, length_of_keys,
}
use etherscan.Bsp.Errors.{Error}
use etherscan.Bsp.Executor.{run, advance}
use etherscan.Aggregator.Int.{IntAccumulator, new_int_accumulator}
use etherscan.Gravitas.Float.{BigFloat}
use etherscan.Gravitas.Compute.{TxMessage, ScoreGraph, ScoreVertex, wallet_count, tx_count}
use etherscan.Gravitas.Calculator.{Calculator, register_aggregators, calculate}
use etherscan.Gravitas.Run.Mailbox.{HasRecipients, HasRecipients-keys}
use etherscan.Gravitas.Run.Vertex.{graph_at}
use etherscan.Gravitas.Run.Counting.{IsFresh, count-All}
use etherscan.Gravitas.Run.Counters.{HasCounters}
use etherscan.Gravitas.Run.Sent.{incoming_all}
use etherscan.Gravitas.Run.Rounds.{
  score_executor, round-workers, round_empty, started, run_stops, run_goes_on,
}
use etherscan.Gravitas.Run.Done.{scored}
use etherscan.Gravitas.Run.Whole.{
  IsFair, IsOrder, IsOpen, outbox_of, run_from1, outbox_of_found, nonempty_order,
}

module _ (fl : BigFloat) where
  open fl use {Carrier}

  -- All transactions of the vertices go to vertices.
  abbrev pub IsClosed : Map Text (ScoreVertex Carrier) → Type 0
  IsClosed m =
      (k : Text) (v : ScoreVertex Carrier) → lookup k m ≡ some v → HasRecipients m v.value.txs

  -- The outcome of a run that the messages reach in the order `is`.
  pub record IsRun (outcome : Option (Option Error × ScoreGraph Carrier))
      (m : Map Text (ScoreVertex Carrier)) (is : List Text) (g' : ScoreGraph Carrier) : Type 0 where
    pub finished : outcome ≡ some (none, g')
    pub order : IsOrder fl is m
    pub last : g'.superstep ≤ 3
    pub same_keys : keys g'.vertices ≡ keys m
    pub at_vertex :
        (k : Text)
        → lookup k g'.vertices
          ≡ Option.map (scored fl (incoming_all fl (outbox_of fl m) k is)) (lookup k m)

  IsOpen-fresh :
      (m m' : Map Text (ScoreVertex Carrier))
      → IsFresh fl m
      → IsClosed m
      → ((k : Text) → lookup k m' ≡ lookup k m)
      → IsOpen fl m'
  IsOpen-fresh m m' fresh closed at_k k v e =
      let at_m = sym (at_k k) ∙ e in
      (
        (fresh k v at_m).0,
        HasRecipients-keys m m' v.value.txs (λ j. has_key_same j m m' (at_k j)) (closed k v at_m),
      )

  scored_same :
      (m m' : Map Text (ScoreVertex Carrier)) (is : List Text) (k : Text)
      → ((j : Text) → lookup j m' ≡ lookup j m)
      → Option.map (scored fl (incoming_all fl (outbox_of fl m') k is)) (lookup k m')
        ≡ Option.map (scored fl (incoming_all fl (outbox_of fl m) k is)) (lookup k m)
  scored_same m m' is k at_k =
      ap₂ (λ out o. Option.map (scored fl (incoming_all fl out k is)) o)
        (fun_ext (λ j. ap (λ o. elim o [ none ↦ [] | some v ↦ v.value.txs ]) (at_k j))) (at_k k)

  module _ (ctx_err : ℕ → Option Error) (live : (s : ℕ) → ctx_err s ≡ none)
      (schedule : ScoreGraph Carrier → List Text) (fair : IsFair schedule)
      (rel : Option (Text → TxMessage Carrier → Option Error)) where
    -- Superstep 0, for a graph with vertices.
    run_from0 :
        (f n : ℕ) (ags : Map Text IntAccumulator) (m : Map Text (ScoreVertex Carrier)) (a p : ℕ)
        → HasCounters ags
        → IsFresh fl m
        → IsClosed m
        → 0 < length m
        → (is : List Text) × (g' : ScoreGraph Carrier) × IsRun
            (run
              (suc (suc (suc (suc f))))
              (score_executor fl ctx_err schedule)
              (negsuc n)
              (graph_at fl 0 ags rel m a p))
            m
            is
            g'
    unfolding advance
    run_from0 f n ags m a p counters fresh closed some_vertex =
        let ex = score_executor fl ctx_err schedule in
        let g = graph_at fl 0 ags rel m a p in
        let is0 = schedule g in
        let lists = (fair g).1 in
        let (ags', m', ran, same, at_k, _, _, _) =
          count-All fl (outbox_of fl m) rel is0 ags m 0 (length m) fresh counters (
            All-of_members _ is0 (λ i listed.
              let (v, found) = has_key-lookup i m (sym (lists i) ∙ listed) in
              (v, found, outbox_of_found fl i v m found))) in
        let left = length m - length is0 in
        let g1 = graph_at fl 0 ags' rel m' (0 + length is0) left in
        let rounded = round-workers fl ctx_err schedule g g1 (live 0) some_vertex ran in
        let busy : (nat_eqb (0 + length is0) 0 ≡ false) =
          let more = nonempty_order fl is0 m lists some_vertex in ground arith in
        let (is, g', order, ran1, at1, keys1, all1) =
          run_from1 fl ctx_err live schedule fair rel f (suc n) ags' m' (0 + length is0) left
            (IsOpen-fresh m m' fresh closed at_k) (omega (arith, length_of_keys m m' same)) in
        (
          is,
          g',
          record {
            finished = run_goes_on ex (suc (suc (suc f))) n g g1 none (rw busy at rounded) ∙ ran1;
            order = record {
              distinct = order.distinct;
              lists = λ k. order.lists k ∙ has_key_same k m m' (at_k k);
            };
            last = at1;
            same_keys = keys1 ∙ same;
            at_vertex = λ k. all1 k ∙ scored_same m m' is k at_k;
          },
        )

  register_aggregators-HasCounters :
      (g : ScoreGraph Carrier) → HasCounters (register_aggregators g).aggregators
  unfolding register_aggregators has_key text_eqb
  register_aggregators-HasCounters g = ground (
    arith,
    lookup-insert wallet_count wallet_count new_int_accumulator g.aggregators,
    lookup-insert tx_count wallet_count new_int_accumulator
        (insert wallet_count new_int_accumulator g.aggregators),
    lookup-insert tx_count tx_count new_int_accumulator
        (insert wallet_count new_int_accumulator g.aggregators),
  )

  size-cases : {W : Type 0} (m : Map Text W) → (m ≡ []) ⊎ (0 < length m)
  size-cases [] = inl refl
  size-cases (e ∷ m) = inr (omega arith)

  -- With no vertices the run ends in superstep 0.
  run_empty :
      (f n : ℕ) (ctx_err : ℕ → Option Error) (schedule : ScoreGraph Carrier → List Text)
      (g : ScoreGraph Carrier)
      → ctx_err g.superstep ≡ none
      → g.superstep ≡ 0
      → g.vertices ≡ []
      → (is : List Text) × (g' : ScoreGraph Carrier) × IsRun
          (run (suc f) (score_executor fl ctx_err schedule) (negsuc n) g)
          g.vertices
          is
          g'
  unfolding lookup member has_key
  run_empty f n ctx_err schedule g live at0 no_vertex = (
    [],
    started fl ctx_err schedule g,
    record {
      finished =
          run_stops (score_executor fl ctx_err schedule) f n g (started fl ctx_err schedule g) none
            (round_empty fl ctx_err schedule g live no_vertex);
      order = record { distinct = tt; lists = λ k. rw no_vertex };
      last = omega (arith, at0);
      same_keys = refl;
      at_vertex = λ k. rw no_vertex;
    },
  )

  -- The run of a calculator whose vertices are as AddVertex leaves them and whose transactions stay
  -- among the vertices: it ends without an error, in superstep 3 at the latest, and every vertex ends
  -- with the score of the messages that the vertices sent it, in an order that has each vertex once.
  -- Fuel 4 is enough; the context must not expire, and the schedule must list each vertex once.
  pub calculate_finishes :
      (fuel : ℕ) (ctx_err : ℕ → Option Error) (schedule : ScoreGraph Carrier → List Text)
      (c : Calculator Carrier)
      → 4 ≤ fuel
      → ((s : ℕ) → ctx_err s ≡ none)
      → IsFair schedule
      → IsFresh fl c.g.vertices
      → IsClosed c.g.vertices
      → (is : List Text) × (g' : ScoreGraph Carrier) × IsRun
          (calculate fl fuel ctx_err schedule c)
          c.g.vertices
          is
          g'
  unfolding calculate
  calculate_finishes zero ctx_err schedule c enough live fair fresh closed = absurd (omega arith)
  calculate_finishes (suc zero) ctx_err schedule c enough live fair fresh closed =
      absurd (omega arith)
  calculate_finishes (suc (suc zero)) ctx_err schedule c enough live fair fresh closed =
      absurd (omega arith)
  calculate_finishes (suc (suc (suc zero))) ctx_err schedule c enough live fair fresh closed =
      absurd (omega arith)
  calculate_finishes (suc (suc (suc (suc f)))) ctx_err schedule c enough live fair fresh closed =
      let g = record (register_aggregators c.g) { superstep = 0 } in
      elim (size-cases c.g.vertices) [
        | inl no_vertex ↦ run_empty (suc (suc (suc f))) 0 ctx_err schedule g (live 0) refl no_vertex
        | inr some_vertex ↦
            run_from0 ctx_err live schedule fair c.g.relayer f 0 g.aggregators c.g.vertices
              c.g.active_in_step c.g.pending_in_step (register_aggregators-HasCounters c.g) fresh
              closed some_vertex
      ]
