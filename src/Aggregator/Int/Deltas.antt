-- ===== src/Aggregator/Int/Deltas.antt =====
-- bspgraph/aggregator/accumulator.go: Delta reports what was aggregated since the last call.
use etherscan.Base.{ℕ, ◌+◌, ◌%◌, ◌≡◌, ◌<◌, refl, List, [], ◌∷◌, arith}
use etherscan.Aggregator.Int.{word, IntAccumulator, get, aggregate, delta}

abbrev pub aggregate_all : List ℕ → IntAccumulator → IntAccumulator
aggregate_all [] a = a
aggregate_all (v ∷ vs) a = aggregate_all vs (aggregate v a)

abbrev pub total : List ℕ → ℕ
total [] = 0
total (v ∷ vs) = v + total vs

-- Both sums are int64 patterns.
abbrev pub IsWord : IntAccumulator → Type 0
IsWord a = (a.prev_sum < word) × (a.cur_sum < word)

pub aggregate_all_lem :
    (vs : List ℕ) (a : IntAccumulator)
    → a.cur_sum < word
    → ((aggregate_all vs a).cur_sum ≡ (a.cur_sum + total vs) % word)
      × ((aggregate_all vs a).prev_sum ≡ a.prev_sum)
unfolding aggregate
aggregate_all_lem [] a h = (omega arith, refl)
aggregate_all_lem (v ∷ vs) a h =
    let (cur, prev) = aggregate_all_lem vs (aggregate v a) (omega arith) in (omega arith, prev)

-- Delta returns the sum, modulo 2 ^ 64, of the values aggregated since the last call of Delta or
-- Set, which left the two sums of `a` equal; a second call at once returns 0, and the value that
-- Get reads is not changed by either call.
pub delta-aggregate_all :
    (vs : List ℕ) (a : IntAccumulator)
    → a.cur_sum < word
    → a.prev_sum ≡ a.cur_sum
    → let (d, a1) = delta (aggregate_all vs a) in
      (d ≡ total vs % word)
      × ((delta a1).0 ≡ 0)
      × (get a1 ≡ (get a + total vs) % word)
      × (get (delta a1).1 ≡ get a1)
unfolding delta get
delta-aggregate_all vs a h same =
    let (cur, prev) = aggregate_all_lem vs a h in (omega arith, omega arith, cur, refl)
