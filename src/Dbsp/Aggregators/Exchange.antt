-- ===== src/Dbsp/Aggregators/Exchange.antt =====
-- dbspgraph/executor.go: the master's aggregators grow by what the workers aggregated.
use mathlib.Core.Option
use etherscan.Base.{
  ℕ, ◌+◌, ◌%◌, ◌<◌, ◌≡◌, refl, ◌∙◌, sym, ap, true, Option, none, some, List, [], ◌∷◌, arith, All,
  map_self,
}
use etherscan.Base.Text.{Text, text_eq}
use etherscan.Base.Map.{Map, keys, lookup, alter, has_key, has_key-alter}
use etherscan.Base.Member.{Distinct}
use etherscan.Aggregator.Int.{word, IntAccumulator, get, aggregate, delta}
use etherscan.Aggregator.Int.Deltas.{aggregate_all, total, aggregate_all_lem}
use etherscan.Rpc.Streams.{ok}
use etherscan.Dbsp.Aggregators.{
  Serializer, merge_worker_aggregator_deltas, serialize_aggregator_values, merge_steps,
}
use etherscan.Dbsp.Aggregators.Numbers.{
  sent_value, numbers, apply_numbers, lookup-apply_numbers, lookup-numbers, keys-numbers,
  numbers-known, serialized-Decodes, apply_values_lem,
}

-- The deltas of the workers for an aggregator.

abbrev pub deltas_at : Text → List (Map Text IntAccumulator) → List ℕ
deltas_at n [] = []
deltas_at n (ags ∷ workers) =
    let rest = deltas_at n workers in
    elim (lookup n ags) [ none ↦ rest | some a ↦ (delta a).0 ∷ rest ]

-- The aggregators of a worker have different names, which the master knows.
abbrev pub AllKnown : Map Text IntAccumulator → List (Map Text IntAccumulator) → Type 0
AllKnown master = All (λ ags. Distinct (keys ags) × All (λ e. has_key e.0 master ≡ true) ags)

has_key-apply_numbers :
    (f : ℕ → IntAccumulator → IntAccumulator) (vs : Map Text ℕ) (ags : Map Text IntAccumulator)
    (n : Text)
    → has_key n (apply_numbers f vs ags) ≡ has_key n ags
has_key-apply_numbers f [] ags n = refl
has_key-apply_numbers f ((m, v) ∷ vs) ags n =
    has_key-apply_numbers f vs (alter m (f v) ags) n ∙ has_key-alter m n (f v) ags

All-known_same :
    {V : Type 0} (m m' : Map Text IntAccumulator) (es : Map Text V)
    → ((n : Text) → has_key n m' ≡ has_key n m)
    → All (λ e. has_key e.0 m ≡ true) es
    → All (λ e. has_key e.0 m' ≡ true) es
All-known_same m m' [] same all = tt
All-known_same m m' ((n, v) ∷ es) same (here, all) =
    (same n ∙ here, All-known_same m m' es same all)

AllKnown-same :
    (m m' : Map Text IntAccumulator) (workers : List (Map Text IntAccumulator))
    → ((n : Text) → has_key n m' ≡ has_key n m)
    → AllKnown m workers
    → AllKnown m' workers
AllKnown-same m m' [] same all = tt
AllKnown-same m m' (ags ∷ workers) same ((once, here), all) =
    ((once, All-known_same m m' ags same here), AllKnown-same m m' workers same all)

-- The master's aggregator after the delta of a worker's.
abbrev absorb : Option IntAccumulator → Option IntAccumulator → Option IntAccumulator
absorb none old = old
absorb (some a) old = Option.map (aggregate (delta a).0) old

absorb_value :
    (o old : Option IntAccumulator)
    → (elim (Option.map (sent_value true) o) [ none ↦ old | some v ↦ Option.map (aggregate v) old ])
      ≡ absorb o old
absorb_value none old = refl
absorb_value (some a) old = refl

absorb_all :
    (o old : Option IntAccumulator) (ds : List ℕ)
    → Option.map (aggregate_all ds) (absorb o old)
      ≡ Option.map (aggregate_all (elim o [ none ↦ ds | some a ↦ (delta a).0 ∷ ds ])) old
absorb_all none old ds = refl
absorb_all (some a) none ds = refl
absorb_all (some a) (some b) ds = refl

lookup-absorb :
    (ags master : Map Text IntAccumulator) (n : Text)
    → Distinct (keys (numbers true ags))
    → lookup n (apply_numbers aggregate (numbers true ags) master)
      ≡ absorb (lookup n ags) (lookup n master)
lookup-absorb ags master n once =
    lookup-apply_numbers aggregate (numbers true ags) master n once
    ∙ ap
        (λ (o : Option ℕ). (elim o [
          | none ↦ lookup n master
          | some v ↦ Option.map (aggregate v) (lookup n master)
        ]))
        (lookup-numbers true ags n)
    ∙ absorb_value (lookup n ags) (lookup n master)

module _ {W E : Type 0} (serializer : Serializer W E)
    (reads : (v : ℕ) (w : W)
      → serializer.serialize v ≡ ok w
      → serializer.unserialize w ≡ ok v) where
  -- Each worker's step has its deltas.
  abbrev pub HasSent : List (Map Text W) → List (Map Text IntAccumulator) → Type 0
  HasSent [] [] = Unit
  HasSent (ws ∷ steps) (ags ∷ workers) =
      ((serialize_aggregator_values serializer true ags).0 ≡ ok ws) × HasSent steps workers
  HasSent _ _ = ⊥

  merge_steps_cons :
      (ws : Map Text W) (steps : List (Map Text W)) (ags ags' : Map Text IntAccumulator)
      → merge_worker_aggregator_deltas serializer ws ags ≡ (none, ags')
      → merge_steps serializer (ws ∷ steps) ags ≡ merge_steps serializer steps ags'
  unfolding merge_steps
  merge_steps_cons ws steps ags ags' h = ground (arith, h)

  merge_steps_lem :
      (steps : List (Map Text W)) (workers : List (Map Text IntAccumulator))
      (master : Map Text IntAccumulator) (n : Text)
      → HasSent steps workers
      → AllKnown master workers
      → ((merge_steps serializer steps master).0 ≡ none)
        × (lookup n (merge_steps serializer steps master).1
            ≡ Option.map (aggregate_all (deltas_at n workers)) (lookup n master))
  unfolding merge_steps merge_worker_aggregator_deltas
  merge_steps_lem [] [] master n sent known =
      (refl, sym (map_self (aggregate_all []) (λ a. refl) (lookup n master)))
  merge_steps_lem (ws ∷ steps) [] master n sent known = elim sent [ ]
  merge_steps_lem [] (ags ∷ workers) master n sent known = elim sent [ ]
  merge_steps_lem (ws ∷ steps) (ags ∷ workers) master n (sent_here, sent) ((once, here), known) =
      let vs = numbers true ags in
      let master1 = apply_numbers aggregate vs master in
      let merged =
        apply_values_lem serializer reads aggregate ws vs master
          (serialized-Decodes serializer reads true ags ws sent_here)
          (numbers-known true ags master here) in
      let (fine, at_n) =
        merge_steps_lem steps workers master1 n sent (
          AllKnown-same master master1 workers (has_key-apply_numbers aggregate vs master) known) in
      let once_vs : (Distinct (keys vs)) = rw (keys-numbers true ags) once in
      rw (merge_steps_cons ws steps master master1 merged) (
        fine,
        at_n
            ∙ ap (Option.map (aggregate_all (deltas_at n workers)))
                (lookup-absorb ags master n once_vs)
            ∙ absorb_all (lookup n ags) (lookup n master) (deltas_at n workers),
      )

  -- The master's loop over the workers' deltas succeeds, if the serializer reads what it has written,
  -- and the names of a worker's aggregators are different and known to the master; then every
  -- aggregator of the master has grown by the sum, modulo 2 ^ 64, of the workers' deltas.
  pub merge_steps_sum :
      (steps : List (Map Text W)) (workers : List (Map Text IntAccumulator))
      (master : Map Text IntAccumulator) (n : Text) (a : IntAccumulator)
      → HasSent steps workers
      → AllKnown master workers
      → lookup n master ≡ some a
      → a.cur_sum < word
      → ((merge_steps serializer steps master).0 ≡ none)
        × ((a' : IntAccumulator) × (lookup n (merge_steps serializer steps master).1 ≡ some a')
            × (get a' ≡ (get a + total (deltas_at n workers)) % word))
  unfolding get
  merge_steps_sum steps workers master n a sent known at_n small =
      let (fine, merged) = merge_steps_lem steps workers master n sent known in
      (
        fine,
        (
          aggregate_all (deltas_at n workers) a,
          merged ∙ ap (Option.map (aggregate_all (deltas_at n workers))) at_n,
          (aggregate_all_lem (deltas_at n workers) a small).0,
        ),
      )
