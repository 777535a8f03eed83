-- ===== src/Pipeline/Pool/Weights.antt =====
-- pipeline/stage.go: the payloads of a pool of workers, weighed by what becomes of them.
use etherscan.Base.{
  ℕ, zero, suc, ◌+◌, ◌≡◌, ap, ap₂, some, List, [], ◌∷◌, length, arith, Option-cases, inl, inr,
}
use etherscan.Pipeline.{Outcome, failed, dropped, produced}
use etherscan.Pipeline.Pool.{Loop, holding, Routine, processing, sending, Pool, pick}

-- The sum of the weights of a list.

abbrev pub weigh : {A : Type 0} → (A → ℕ) → List A → ℕ
weigh f [] = 0
weigh f (x ∷ xs) = f x + weigh f xs

-- Weights for what becomes of a payload: it is sent on, marked as processed, or fails.
pub record Weights (P E : Type 0) : Type 0 where
  pub of_output : P → ℕ
  pub of_processed : P → ℕ
  pub of_failure : E → ℕ

module _ {P E : Type 0} (weights : Weights P E) (proc : P → Outcome P E) where
  -- A payload weighs what Process makes of it.
  abbrev pub of_outcome : Outcome P E → P → ℕ
  of_outcome (failed e) x = weights.of_failure e
  of_outcome dropped x = weights.of_processed x
  of_outcome (produced y) x = weights.of_output y

  abbrev pub of_payload : P → ℕ
  of_payload x = of_outcome (proc x) x

  abbrev pub held : Loop P → ℕ
  held (holding x) = of_payload x
  held _ = 0

  abbrev pub of_routine : Routine P → ℕ
  of_routine (processing x) = of_payload x
  of_routine (sending y) = weights.of_output y

  -- The payloads, wherever they are: in the input, held, in a routine, or one of the results.
  abbrev pub weigh_payloads : Pool P E → ℕ
  weigh_payloads p =
      weigh of_payload p.input
      + held p.loop
      + weigh of_routine p.routines
      + weigh weights.of_output p.output
      + weigh weights.of_processed p.processed
      + weigh weights.of_failure p.failures
      + weigh of_payload p.unread
      + weigh weights.of_output p.unsent

  pub weigh-pick :
      (i : ℕ) (rs rest : List (Routine P)) (r : Routine P)
      → pick i rs ≡ some (r, rest)
      → weigh of_routine rs ≡ of_routine r + weigh of_routine rest
  unfolding pick
  weigh-pick i [] rest r h = ground (arith, h)
  weigh-pick zero (r' ∷ rs) rest r h =
      let one : r' ≡ r = ground (arith, h) in
      let others : rs ≡ rest = ground (arith, h) in
      ap₂ (λ x xs. of_routine x + weigh of_routine xs) one others
  weigh-pick (suc i) (r' ∷ rs) rest r h = elim (Option-cases (pick i rs)) [
    | inl gone ↦ ground (arith, h, gone)
    | inr ((r1, rest1), found) ↦
        let one : r1 ≡ r = ground (arith, h, found) in
        let others : r' ∷ rest1 ≡ rest = ground (arith, h, found) in
        let sum = weigh-pick i rs rest1 r1 found in
        omega (arith, sum, ap of_routine one, ap (weigh of_routine) others)
  ]

pub length-pick :
    {P : Type 0} (i : ℕ) (rs rest : List (Routine P)) (r : Routine P)
    → pick i rs ≡ some (r, rest)
    → length rs ≡ suc (length rest)
unfolding pick
length-pick i [] rest r h = ground (arith, h)
length-pick zero (r' ∷ rs) rest r h = ground (arith, h)
length-pick (suc i) (r' ∷ rs) rest r h = elim (Option-cases (pick i rs)) [
  | inl gone ↦ ground (arith, h, gone)
  | inr ((r1, rest1), found) ↦ ground (arith, h, found, length-pick i rs rest1 r1 found)
]
