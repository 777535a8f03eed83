-- ===== src/Dbsp/Aggregators/Numbers.antt =====
-- dbspgraph/executor.go: the messages of aggregators as the numbers that they stand for.
use mathlib.Core.Option
use etherscan.Base.{
  ℕ, ◌≡◌, refl, ◌∙◌, ap, Bool, true, false, none, some, [], ◌∷◌, arith, All, if◌then◌else◌, ◌==◌,
  Bool-cases, inl, inr,
}
use etherscan.Base.Text.{Text, text_eq}
use etherscan.Base.Map.{
  Map, keys, lookup, alter, has_key, lookup-alter, has_key-alter, has_key-lookup,
}
use etherscan.Base.Member.{member, Distinct, member-keys, member_head_once}
use etherscan.Aggregator.Int.{IntAccumulator, get, delta}
use etherscan.Rpc.Streams.{ok}
use etherscan.Dbsp.Aggregators.{Serializer, apply_values, serialize_aggregator_values}

-- What is sent of an aggregator: its delta, or its value.

abbrev pub sent_value : Bool → IntAccumulator → ℕ
sent_value deltas a = if deltas then (delta a).0 else get a

abbrev pub numbers : Bool → Map Text IntAccumulator → Map Text ℕ
numbers deltas [] = []
numbers deltas ((name, a) ∷ ags) = (name, sent_value deltas a) ∷ numbers deltas ags

-- The loop over values that are numbers.
abbrev pub apply_numbers :
    (ℕ → IntAccumulator → IntAccumulator)
    → Map Text ℕ
    → Map Text IntAccumulator
    → Map Text IntAccumulator
apply_numbers f [] ags = ags
apply_numbers f ((name, v) ∷ vs) ags = apply_numbers f vs (alter name (f v) ags)

repeated_name :
    (m n : Text) (vs : Map Text ℕ)
    → member m (keys vs) ≡ false
    → (m == n) ≡ true
    → lookup n vs ≡ none
unfolding has_key
repeated_name m n vs new same =
    let gone = member_head_once n m (keys vs) new same in ground (arith, gone, member-keys n vs)

pub lookup-apply_numbers :
    (f : ℕ → IntAccumulator → IntAccumulator) (vs : Map Text ℕ) (ags : Map Text IntAccumulator)
    (n : Text)
    → Distinct (keys vs)
    → lookup n (apply_numbers f vs ags)
      ≡ (elim (lookup n vs) [ none ↦ lookup n ags | some v ↦ Option.map (f v) (lookup n ags) ])
unfolding keys lookup
lookup-apply_numbers f [] ags n once = refl
lookup-apply_numbers f ((m, v) ∷ vs) ags n (new, once) =
    lookup-apply_numbers f vs (alter m (f v) ags) n once ∙ (elim (Bool-cases (m == n)) [
      | inl same ↦ ground (arith, same, repeated_name m n vs new same, lookup-alter m n (f v) ags)
      | inr other ↦ ground (arith, other, lookup-alter m n (f v) ags)
    ])

pub lookup-numbers :
    (deltas : Bool) (ags : Map Text IntAccumulator) (n : Text)
    → lookup n (numbers deltas ags) ≡ Option.map (sent_value deltas) (lookup n ags)
unfolding lookup
lookup-numbers deltas [] n = refl
lookup-numbers deltas ((m, a) ∷ ags) n = ground (arith, lookup-numbers deltas ags n)

pub keys-numbers :
    (deltas : Bool) (ags : Map Text IntAccumulator) → keys (numbers deltas ags) ≡ keys ags
unfolding keys
keys-numbers deltas [] = refl
keys-numbers deltas ((m, a) ∷ ags) = ap (λ ks. m ∷ ks) (keys-numbers deltas ags)

-- The numbers have their aggregators.
known_after :
    (m : Text) (f : IntAccumulator → IntAccumulator) (ags : Map Text IntAccumulator)
    (vs : Map Text ℕ)
    → All (λ e. has_key e.0 ags ≡ true) vs
    → All (λ e. has_key e.0 (alter m f ags) ≡ true) vs
known_after m f ags [] all = tt
known_after m f ags ((n, v) ∷ vs) (here, all) =
    (has_key-alter m n f ags ∙ here, known_after m f ags vs all)

pub numbers-known :
    (deltas : Bool) (ags master : Map Text IntAccumulator)
    → All (λ e. has_key e.0 master ≡ true) ags
    → All (λ e. has_key e.0 master ≡ true) (numbers deltas ags)
numbers-known deltas [] master all = tt
numbers-known deltas ((n, a) ∷ ags) master (here, all) = (here, numbers-known deltas ags master all)

module _ {W E : Type 0} (serializer : Serializer W E)
    (reads : (v : ℕ) (w : W)
      → serializer.serialize v ≡ ok w
      → serializer.unserialize w ≡ ok v) where
  -- The messages stand for the numbers.
  abbrev pub Decodes : Map Text W → Map Text ℕ → Type 0
  Decodes [] [] = Unit
  Decodes ((n, w) ∷ ws) ((m, v) ∷ vs) = (n ≡ m) × (serializer.unserialize w ≡ ok v) × Decodes ws vs
  Decodes _ _ = ⊥

  serialized-inversion :
      (deltas : Bool) (m n : Text) (a : IntAccumulator) (ags : Map Text IntAccumulator) (w : W)
      (ws : Map Text W)
      → (serialize_aggregator_values serializer deltas ((m, a) ∷ ags)).0 ≡ ok ((n, w) ∷ ws)
      → (n ≡ m)
        × (serializer.serialize (sent_value deltas a) ≡ ok w)
        × ((serialize_aggregator_values serializer deltas ags).0 ≡ ok ws)
  unfolding serialize_aggregator_values
  serialized-inversion deltas m n a ags w ws h =
      (ground (arith, h), ground (arith, h), ground (arith, h))

  pub serialized-Decodes :
      (deltas : Bool) (ags : Map Text IntAccumulator) (ws : Map Text W)
      → (serialize_aggregator_values serializer deltas ags).0 ≡ ok ws
      → Decodes ws (numbers deltas ags)
  unfolding serialize_aggregator_values
  serialized-Decodes deltas [] [] h = tt
  serialized-Decodes deltas [] (w ∷ ws) h = ground (arith, h)
  serialized-Decodes deltas ((m, a) ∷ ags) [] h = ground (arith, h)
  serialized-Decodes deltas ((m, a) ∷ ags) ((n, w) ∷ ws) h =
      let (same, sent, rest) = serialized-inversion deltas m n a ags w ws h in
      (same, reads (sent_value deltas a) w sent, serialized-Decodes deltas ags ws rest)

  pub apply_values_lem :
      (f : ℕ → IntAccumulator → IntAccumulator) (ws : Map Text W) (vs : Map Text ℕ)
      (ags : Map Text IntAccumulator)
      → Decodes ws vs
      → All (λ e. has_key e.0 ags ≡ true) vs
      → apply_values serializer f ws ags ≡ (none, apply_numbers f vs ags)
  unfolding apply_values
  apply_values_lem f [] [] ags d known = refl
  apply_values_lem f [] (v ∷ vs) ags d known = elim d [ ]
  apply_values_lem f (w ∷ ws) [] ags d known = elim d [ ]
  apply_values_lem f ((n, w) ∷ ws) ((m, v) ∷ vs) ags (same, read, d) (here, known) =
      let (a, found) = has_key-lookup m ags here in
      let rest =
        apply_values_lem f ws vs (alter m (f v) ags) d (known_after m (f v) ags vs known) in
      ground (arith, same, read, found, rest)
