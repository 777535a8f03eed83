-- ===== src/Aggregator/Float64.antt =====
-- bspgraph/aggregator/accumulator.go: Float64Accumulator, one call after the other. A float64 is a value of
-- a type with the sums and differences of the hardware; a lone caller succeeds in the first round of
-- each retry loop.
use etherscan.Base.{List, [], ◌∷◌, ◌≡◌, refl, ap₂}

pub record Float64 : Type 1 where
  pub Carrier : Type 0
  pub add : Carrier → Carrier → Carrier
  pub sub : Carrier → Carrier → Carrier

module _ (fl : Float64) where
  open fl use {Carrier, add, sub}

  pub record Float64Accumulator : Type 0 where
    pub prev_sum : Carrier
    pub cur_sum : Carrier

  unfoldable pub get : Float64Accumulator → Carrier
  get a = a.cur_sum

  unfoldable pub set : Carrier → Float64Accumulator → Float64Accumulator
  set v a = record { prev_sum = v; cur_sum = v }

  unfoldable pub aggregate : Carrier → Float64Accumulator → Float64Accumulator
  aggregate v a = record a { cur_sum = add a.cur_sum v }

  unfoldable pub delta : Float64Accumulator → Carrier × Float64Accumulator
  delta a = (sub a.cur_sum a.prev_sum, record a { prev_sum = a.cur_sum })

  abbrev pub aggregate_all : List Carrier → Float64Accumulator → Float64Accumulator
  aggregate_all [] a = a
  aggregate_all (v ∷ vs) a = aggregate_all vs (aggregate v a)

  abbrev pub sum_from : Carrier → List Carrier → Carrier
  sum_from s [] = s
  sum_from s (v ∷ vs) = sum_from (add s v) vs

  aggregate_all_lem :
      (vs : List Carrier) (a : Float64Accumulator)
      → (get (aggregate_all vs a) ≡ sum_from (get a) vs)
        × ((aggregate_all vs a).prev_sum ≡ a.prev_sum)
  unfolding aggregate get
  aggregate_all_lem [] a = (refl, refl)
  aggregate_all_lem (v ∷ vs) a =
      let (cur, prev) = aggregate_all_lem vs (aggregate v a) in (cur, prev)

  -- After a Set, Delta is the difference of the rounded sum of the values aggregated since and the value
  -- that was set, which is not the sum of those values where the sums are rounded.
  delta-aggregate_all_set :
      (s : Carrier) (vs : List Carrier) (a : Float64Accumulator)
      → (delta (aggregate_all vs (set s a))).0 ≡ sub (sum_from s vs) s
  unfolding delta set get
  delta-aggregate_all_set s vs a =
      let (cur, prev) = aggregate_all_lem vs (set s a) in ap₂ sub cur prev
