-- ===== src/Service/Gravitas/Ticks.antt =====
-- depl/monolith/service/gravitas/gravitas.go: what Run makes of the ticks of its clock.
use etherscan.Base.{
  ◌≡◌, refl, true, false, Option, none, some, List, [], ◌∷◌, arith, pos, int_eq, ◌==◌,
}
use etherscan.Service.Gravitas.{PartitionInfo, current, not_available, failed, run}

module _ {E S : Type 0} (pass : S → Option E × S) where
  -- The ticks that lead to a pass: those at the leader's partition, before the first one that ends
  -- the run.
  abbrev pub leading : List (PartitionInfo E) → List (PartitionInfo E)
  leading [] = []
  leading (failed e ∷ ticks) = []
  leading (not_available ∷ ticks) = leading ticks
  leading (current p ∷ ticks) =
      let rest = leading ticks in elim (p == pos 0) [ true ↦ current p ∷ rest | false ↦ [] ]

  -- The passes, one for each of the ticks; the first error ends them.
  abbrev pub passes : List (PartitionInfo E) → S → Option E × S
  passes [] s = (none, s)
  passes (tick ∷ ticks) s =
      let (err, s') = pass s in
      let rest = passes ticks s' in elim err [ some e ↦ (some e, s') | none ↦ rest ]

  -- Run changes its state by one pass for each tick at which it is the leader, up to the first tick
  -- at which it is not or the detector fails, or the first pass that fails; ticks without partition
  -- data are passed over.
  pub run-passes :
      (ticks : List (PartitionInfo E)) (s : S) → (run pass ticks s).1 ≡ (passes (leading ticks) s).1
  unfolding run
  run-passes [] s = refl
  run-passes (failed e ∷ ticks) s = refl
  run-passes (not_available ∷ ticks) s = run-passes ticks s
  run-passes (current p ∷ ticks) s = ground (arith, run-passes ticks (pass s).1)
