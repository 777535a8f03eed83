-- ===== src/Aggregator/Examples.antt =====
-- bspgraph/aggregator/accumulator.go: a run at a concrete input.
use etherscan.Base.{ℕ, ◌≡◌, refl, List, [], ◌∷◌, arith}
use etherscan.Aggregator.Int.{IntAccumulator, get, delta}
use etherscan.Aggregator.Int.Deltas.{aggregate_all, delta-aggregate_all}

abbrev five : IntAccumulator
five = record { prev_sum = 5; cur_sum = 5 }

-- 2 ^ 64 - 1 is the int64 -1.
abbrev minus_one_and_ten : List ℕ
minus_one_and_ten = 18446744073709551615 ∷ 10 ∷ []

delta-aggregate_all_example :
    let (d, a) = delta (aggregate_all minus_one_and_ten five) in
    (d ≡ 9) × ((delta a).0 ≡ 0) × (get a ≡ 14) × (get (delta a).1 ≡ get a)
unfolding get
delta-aggregate_all_example = delta-aggregate_all minus_one_and_ten five (omega arith) refl
