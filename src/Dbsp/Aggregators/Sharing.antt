-- ===== src/Dbsp/Aggregators/Sharing.antt =====
-- dbspgraph/executor.go: what the workers make of the master's values.
use mathlib.Core.Option
use etherscan.Base.{ℕ, ◌<◌, ◌≡◌, refl, ◌∙◌, ap, true, false, none, some, arith, All}
use etherscan.Base.Text.{Text, text_eq}
use etherscan.Base.Map.{Map, keys, lookup, has_key}
use etherscan.Base.Member.{Distinct}
use etherscan.Aggregator.Int.{word, IntAccumulator, get, set, delta}
use etherscan.Rpc.Streams.{ok}
use etherscan.Dbsp.Aggregators.{Serializer, set_aggregator_values, serialize_aggregator_values}
use etherscan.Dbsp.Aggregators.Numbers.{
  sent_value, numbers, lookup-apply_numbers, lookup-numbers, keys-numbers, numbers-known,
  serialized-Decodes, apply_values_lem,
}

module _ {W E : Type 0} (serializer : Serializer W E)
    (reads : (v : ℕ) (w : W)
      → serializer.serialize v ≡ ok w
      → serializer.unserialize w ≡ ok v) where
  -- A worker that knows all names of the master sets its aggregators without an error to the values
  -- that the master sent: Get then reads at the worker what it reads at the master, and Delta is 0.
  pub set_aggregator_values_lem :
      (ws : Map Text W) (master worker : Map Text IntAccumulator) (n : Text) (a b : IntAccumulator)
      → (serialize_aggregator_values serializer false master).0 ≡ ok ws
      → Distinct (keys master)
      → All (λ e. has_key e.0 worker ≡ true) master
      → lookup n master ≡ some a
      → lookup n worker ≡ some b
      → a.cur_sum < word
      → ((set_aggregator_values serializer ws worker).0 ≡ none)
        × ((b' : IntAccumulator) × (lookup n (set_aggregator_values serializer ws worker).1
              ≡ some b')
            × (get b' ≡ get a)
            × ((delta b').0 ≡ 0))
  unfolding set_aggregator_values get set delta
  set_aggregator_values_lem ws master worker n a b sent once known at_master at_worker small =
      let vs = numbers false master in
      let applied =
        apply_values_lem serializer reads set ws vs worker
          (serialized-Decodes serializer reads false master ws sent)
          (numbers-known false master worker known) in
      let once_vs : (Distinct (keys vs)) = rw (keys-numbers false master) once in
      let number : (lookup n vs ≡ some (get a)) =
        lookup-numbers false master n ∙ ap (Option.map (sent_value false)) at_master in
      rw applied (
        refl,
        (
          set (get a) b,
          lookup-apply_numbers set vs worker n once_vs ∙ ground (arith, number, at_worker),
          refl,
          omega (arith, small),
        ),
      )
