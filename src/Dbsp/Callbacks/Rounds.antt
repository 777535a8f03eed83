-- ===== src/Dbsp/Callbacks/Rounds.antt =====
-- dbspgraph/executor.go: what the callbacks of the master and the workers make of a superstep together.
use mathlib.Core.Path.{subst}
use etherscan.Base.{
  ℕ, ◌+◌, ◌%◌, ◌<◌, ◌≡◌, refl, ◌∙◌, sym, ap, true, false, Option, none, some, List, [], ◌∷◌, map,
  arith, All,
}
use etherscan.Base.Text.{Text, text_eq}
use etherscan.Base.Map.{Map, keys, lookup, has_key, alter, keys-alter}
use etherscan.Base.Member.{Distinct}
use etherscan.Aggregator.Int.{word, IntAccumulator, get, delta, aggregate}
use etherscan.Aggregator.Int.Deltas.{total}
use etherscan.Bsp.Graph.{Graph}
use etherscan.Rpc.Streams.{ok, error}
use etherscan.Dbsp.Aggregators.{
  Serializer, AggregatorError, unknown_aggregator, serializer_failed, apply_values,
  merge_worker_aggregator_deltas, merge_steps, serialize_aggregator_values,
}
use etherscan.Dbsp.Aggregators.Exchange.{HasSent, AllKnown, deltas_at, merge_steps_sum}
use etherscan.Dbsp.Aggregators.Sharing.{set_aggregator_values_lem}
use etherscan.Dbsp.Callbacks.{Step, master_answer, take_answer}

module _ {W E : Type 0} (serializer : Serializer W E) where
  serialize_keeps :
      (ags : Map Text IntAccumulator) → (serialize_aggregator_values serializer false ags).1 ≡ ags
  unfolding serialize_aggregator_values
  serialize_keeps [] = refl
  serialize_keeps ((name, a) ∷ ags) = ground (arith, serialize_keeps ags)

  keys-apply_values :
      (f : ℕ → IntAccumulator → IntAccumulator) (ws : Map Text W) (ags : Map Text IntAccumulator)
      → keys (apply_values serializer f ws ags).1 ≡ keys ags
  unfolding apply_values
  keys-apply_values f [] ags = refl
  keys-apply_values f ((name, w) ∷ ws) ags =
      elim (lookup name ags)
        as (λ found.
          let r : Option (AggregatorError E) × Map Text IntAccumulator = elim found [
            | none ↦ (some (unknown_aggregator name), ags)
            | some _ ↦ elim (serializer.unserialize w) [
              | error e ↦ (some (serializer_failed name e), ags)
              | ok val ↦ apply_values serializer f ws (alter name (f val) ags)
            ]
          ] in
          keys r.1 ≡ keys ags) [
            | none ↦ refl
            | some _ ↦
                elim (serializer.unserialize w)
                  as (λ val.
                    let r : Option (AggregatorError E) × Map Text IntAccumulator = elim val [
                      | error e ↦ (some (serializer_failed name e), ags)
                      | ok val ↦ apply_values serializer f ws (alter name (f val) ags)
                    ] in
                    keys r.1 ≡ keys ags) [
                      | error e ↦ refl
                      | ok val ↦
                          keys-apply_values f ws (alter name (f val) ags)
                          ∙ keys-alter name (f val) ags
                    ]
          ]

  keys-merge_steps :
      (steps : List (Map Text W)) (ags : Map Text IntAccumulator)
      → keys (merge_steps serializer steps ags).1 ≡ keys ags
  unfolding merge_steps merge_worker_aggregator_deltas
  keys-merge_steps [] ags = refl
  keys-merge_steps (ws ∷ steps) ags =
      let (err, ags') = merge_worker_aggregator_deltas serializer ws ags in
      elim err
        as (λ x.
          let r : Option (AggregatorError E) × Map Text IntAccumulator = elim x [
            | some e ↦ (some e, ags')
            | none ↦ merge_steps serializer steps ags'
          ] in
          keys r.1 ≡ keys ags) [
            | some e ↦ keys-apply_values aggregate ws ags
            | none ↦ keys-merge_steps steps ags' ∙ keys-apply_values aggregate ws ags
          ]

known_keys :
    (m m' worker : Map Text IntAccumulator)
    → keys m ≡ keys m'
    → All (λ e. has_key e.0 worker ≡ true) m
    → All (λ e. has_key e.0 worker ≡ true) m'
unfolding keys
known_keys [] [] worker same all = tt
known_keys [] (e ∷ m') worker same all = cc
known_keys (e ∷ m) [] worker same all = cc
known_keys ((n, a) ∷ m) ((n', a') ∷ m') worker same (here, all) =
    let one : n ≡ n' = ground (arith, same) in
    let more : keys m ≡ keys m' = ground (arith, same) in
    (subst (λ k. has_key k worker ≡ true) one here, known_keys m m' worker more all)

module _ {V M W E : Type 0} (serializer : Serializer W E)
    (reads : (v : ℕ) (w : W)
      → serializer.serialize v ≡ ok w
      → serializer.unserialize w ≡ ok v) where
  -- What the answer of the master is, if there is one.
  answer-inversion :
      (steps : List (Step W)) (g g' : Graph V M IntAccumulator) (answer : Step W)
      → (merge_steps serializer (map (λ s. s.aggregator_values) steps) g.aggregators).0 ≡ none
      → master_answer serializer steps g ≡ (ok answer, g')
      → ((serialize_aggregator_values serializer false
            (merge_steps serializer (map (λ s. s.aggregator_values) steps) g.aggregators).1).0
          ≡ ok answer.aggregator_values)
        × (g'.aggregators
            ≡ (merge_steps serializer (map (λ s. s.aggregator_values) steps) g.aggregators).1)
  unfolding master_answer
  answer-inversion steps g g' answer merged h = ground (
    arith,
    h,
    merged,
    serialize_keeps serializer
        (merge_steps serializer (map (λ s. s.aggregator_values) steps) g.aggregators).1,
  )

  -- At the end of a superstep, if the serializer reads what it has written and the names of a graph's
  -- aggregators are different and known to the others: the answer that the master makes of the deltas
  -- of all workers sets a worker's aggregator to the value that the master's has then, the old one plus
  -- the sum of the deltas, modulo 2 ^ 64; and there is nothing new to report.
  pub take_answer-master_answer :
      (steps : List (Step W)) (workers : List (Map Text IntAccumulator))
      (g g' worker : Graph V M IntAccumulator) (answer : Step W) (n : Text) (a b : IntAccumulator)
      → HasSent serializer reads (map (λ s. s.aggregator_values) steps) workers
      → AllKnown g.aggregators workers
      → Distinct (keys g.aggregators)
      → All (λ e. has_key e.0 worker.aggregators ≡ true) g.aggregators
      → lookup n g.aggregators ≡ some a
      → lookup n worker.aggregators ≡ some b
      → a.cur_sum < word
      → master_answer serializer steps g ≡ (ok answer, g')
      → ((take_answer serializer answer worker).0 ≡ none)
        × ((a' : IntAccumulator) × (b' : IntAccumulator) × (lookup n g'.aggregators ≡ some a')
            × (lookup n (take_answer serializer answer worker).1.aggregators ≡ some b')
            × (get a' ≡ (get a + total (deltas_at n workers)) % word)
            × (get b' ≡ get a')
            × ((delta b').0 ≡ 0))
  unfolding take_answer get
  take_answer-master_answer steps workers g g' worker answer n a b sent all_known once known at_n
        at_worker small h =
      let sent_steps = map (λ s. s.aggregator_values) steps in
      let merged = (merge_steps serializer sent_steps g.aggregators).1 in
      let (fine, (a', at_merged, sum)) =
        merge_steps_sum serializer reads sent_steps workers g.aggregators n a sent all_known at_n
          small in
      let (values, same) = answer-inversion steps g g' answer fine h in
      let same_keys = keys-merge_steps serializer sent_steps g.aggregators in
      let (taken, (b', at_b, equal, none_new)) =
        set_aggregator_values_lem serializer reads answer.aggregator_values merged
          worker.aggregators n a' b values (subst Distinct (sym same_keys) once)
          (known_keys g.aggregators merged worker.aggregators (sym same_keys) known) at_merged
          at_worker (omega (arith, sum)) in
      (taken, (a', b', ap (lookup n) same ∙ at_merged, at_b, sum, equal, none_new))
