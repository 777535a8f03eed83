-- ===== src/Bsp/Executor/Bounds.antt =====
-- bspgraph/executor.go: RunSteps ends, after at most the given number of supersteps.
use etherscan.Base.{
  ℕ, zero, suc, ◌+◌, ◌≡◌, ◌≤◌, ◌<◌, refl, ◌∙◌, true, false, Option, none, some, arith, Bool-cases,
  inl, inr, pos, ◌-ℤ◌, int_eq,
}
use etherscan.Bsp.Errors.{Error}
use etherscan.Bsp.Graph.{Graph}
use etherscan.Bsp.Executor.{Executor, round, advance, run, run_steps}

module _ {V M A : Type 0} (ex : Executor V M A) where
  -- Callbacks and compute function leave the superstep alone.
  abbrev pub KeepsSuperstep : Type 0
  KeepsSuperstep = (g : Graph V M A) → (round ex g).1.superstep ≡ g.superstep

  -- How a run of at most `n` supersteps from `g` ends: in at most `n` steps without an error, or
  -- with an error or the callback's stop in one of these supersteps.
  abbrev pub EndsWithin : ℕ → Graph V M A → Option (Option Error × Graph V M A) → Type 0
  EndsWithin n g outcome =
      (err : Option Error) × (g' : Graph V M A) × (outcome ≡ some (err, g'))
      × (g.superstep ≤ g'.superstep)
      × (g'.superstep ≤ g.superstep + n)

  run_steps_zero : (f : ℕ) (g : Graph V M A) → run (suc f) ex (pos 0) g ≡ some (none, g)
  unfolding run
  run_steps_zero f g = refl

  run_steps_stop :
      (f n : ℕ) (g : Graph V M A)
      → (round ex g).0.1 ≡ false
      → run (suc f) ex (pos (suc n)) g ≡ some ((round ex g).0.0, (round ex g).1)
  unfolding run
  run_steps_stop f n g h = ground arith

  run_steps_go :
      (f n : ℕ) (g : Graph V M A)
      → (round ex g).0.1 ≡ true
      → run (suc f) ex (pos (suc n)) g ≡ run f ex (pos n) (advance (round ex g).1)
  unfolding run ◌-ℤ◌
  run_steps_go f n g h = ground arith

  run_within :
      KeepsSuperstep
      → (fuel n : ℕ) (g : Graph V M A) → n < fuel
      → EndsWithin n g (run fuel ex (pos n) g)
  unfolding advance
  run_within keeps zero n g h = absurd (omega arith)
  run_within keeps (suc f) zero g h = (none, g, run_steps_zero f g, omega arith, omega arith)
  run_within keeps (suc f) (suc n) g h = elim (Bool-cases (round ex g).0.1) [
    | inl go ↦
        let g1 = advance (round ex g).1 in
        let (err, g', ran, lo, hi) = run_within keeps f n g1 (omega arith) in
        (err, g', run_steps_go f n g go ∙ ran, omega (arith, keeps g), omega (arith, keeps g))
    | inr stop ↦ (
      (round ex g).0.0,
      (round ex g).1,
      run_steps_stop f n g stop,
      omega (arith, keeps g),
      omega (arith, keeps g),
    )
  ]

  -- RunSteps with `n` steps returns for any fuel above `n`, and the superstep of the graph grows by
  -- at most `n`, if callbacks and compute function leave it alone.
  pub run_steps_ends :
      (fuel n : ℕ) (g : Graph V M A)
      → KeepsSuperstep
      → n < fuel
      → EndsWithin n g (run_steps fuel ex (pos n) g)
  unfolding run_steps
  run_steps_ends fuel n g keeps h = run_within keeps fuel n g h
