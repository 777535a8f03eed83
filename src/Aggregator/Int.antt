-- ===== src/Aggregator/Int.antt =====
-- bspgraph/aggregator/accumulator.go: IntAccumulator, one call after the other. An int64 is its bit
-- pattern, a number below 2 ^ 64; a lone caller succeeds in the first round of each retry loop.
pub mod Deltas
use etherscan.Base.{ℕ, ◌+◌, ◌-◌, ◌%◌}

abbrev pub word : ℕ
word = 18446744073709551616

pub record IntAccumulator : Type 0 where
  pub prev_sum : ℕ
  pub cur_sum : ℕ

unfoldable pub new_int_accumulator : IntAccumulator
new_int_accumulator = record { prev_sum = 0; cur_sum = 0 }

unfoldable pub get : IntAccumulator → ℕ
get a = a.cur_sum

unfoldable pub set : ℕ → IntAccumulator → IntAccumulator
set v a = record { prev_sum = v; cur_sum = v }

unfoldable pub aggregate : ℕ → IntAccumulator → IntAccumulator
aggregate v a = record a { cur_sum = (a.cur_sum + v) % word }

unfoldable pub delta : IntAccumulator → ℕ × IntAccumulator
delta a = ((a.cur_sum + word - a.prev_sum) % word, record a { prev_sum = a.cur_sum })
