-- ===== src/Dbsp/Relay/Numbering.antt =====
-- dbspgraph/: how many barriers a worker has joined and left, from the phases of the master's barrier.
use etherscan.Base.{
  ℕ, zero, suc, ◌+◌, ◌<◌, ◌≤◌, ◌≡◌, refl, true, false, Option, none, some, List, [], ◌∷◌, length,
  get_elem?, nat_eqb, arith, inl, inr,
}
use etherscan.Dbsp.Barrier.{
  Phase, outside, waiting, returned, MasterStepBarrier, set_phase, is_outside, is_waiting,
  outsiders,
}
use etherscan.Dbsp.Barrier.Safety.{IsInStep, count_outside, count_returned}

module _ {S : Type 0} where
  abbrev pub joined_in : Option (Phase S) → ℕ
  joined_in none = 0
  joined_in (some outside) = 0
  joined_in (some waiting) = 1
  joined_in (some (returned s)) = 1

  abbrev pub waits_in : Option (Phase S) → ℕ
  waits_in none = 0
  waits_in (some outside) = 0
  waits_in (some waiting) = 1
  waits_in (some (returned s)) = 0

  abbrev pub left_in : Option (Phase S) → ℕ
  left_in none = 0
  left_in (some outside) = 0
  left_in (some waiting) = 0
  left_in (some (returned s)) = 1

  pub joined_in-split : (p : Option (Phase S)) → joined_in p ≡ left_in p + waits_in p
  joined_in-split none = refl
  joined_in-split (some outside) = refl
  joined_in-split (some waiting) = refl
  joined_in-split (some (returned s)) = refl

  pub joined_in-le : (p : Option (Phase S)) → joined_in p ≤ 1
  joined_in-le none = omega arith
  joined_in-le (some outside) = omega arith
  joined_in-le (some waiting) = omega arith
  joined_in-le (some (returned s)) = omega arith

  none_left : (ps : List (Phase S)) (k : ℕ) → count_returned ps ≡ 0 → left_in (get_elem? ps k) ≡ 0
  none_left [] k h = refl
  none_left (outside ∷ ps) zero h = refl
  none_left (waiting ∷ ps) zero h = refl
  none_left (returned s ∷ ps) zero h = absurd (omega (arith, h))
  none_left (outside ∷ ps) (suc k) h = none_left ps k h
  none_left (waiting ∷ ps) (suc k) h = none_left ps k h
  none_left (returned s ∷ ps) (suc k) h = absurd (omega (arith, h))

  all_joined :
      (ps : List (Phase S)) (k : ℕ)
      → count_outside ps ≡ 0
      → k < length ps
      → joined_in (get_elem? ps k) ≡ 1
  all_joined [] k h lt = absurd (omega (arith, lt))
  all_joined (outside ∷ ps) k h lt = absurd (omega (arith, h))
  all_joined (waiting ∷ ps) zero h lt = refl
  all_joined (returned s ∷ ps) zero h lt = refl
  all_joined (waiting ∷ ps) (suc k) h lt = all_joined ps k h (omega arith)
  all_joined (returned s ∷ ps) (suc k) h lt = all_joined ps k h (omega arith)

  returned-le : (ps : List (Phase S)) → count_returned ps ≤ length ps
  returned-le [] = omega arith
  returned-le (outside ∷ ps) = omega (arith, returned-le ps)
  returned-le (waiting ∷ ps) = omega (arith, returned-le ps)
  returned-le (returned s ∷ ps) = omega (arith, returned-le ps)

  pub all_left :
      (ps : List (Phase S)) (k : ℕ)
      → count_returned ps ≡ length ps
      → k < length ps
      → (left_in (get_elem? ps k) ≡ 1) × (waits_in (get_elem? ps k) ≡ 0)
  all_left [] k h lt = absurd (omega (arith, lt))
  all_left (outside ∷ ps) k h lt = absurd (omega (arith, returned-le ps))
  all_left (waiting ∷ ps) k h lt = absurd (omega (arith, returned-le ps))
  all_left (returned s ∷ ps) zero h lt = (refl, refl)
  all_left (returned s ∷ ps) (suc k) h lt = all_left ps k (omega arith) (omega arith)

  pub get_elem?-set_phase_self :
      (i : ℕ) (p : Phase S) (ps : List (Phase S))
      → i < length ps
      → get_elem? (set_phase i p ps) i ≡ some p
  get_elem?-set_phase_self i p [] lt = absurd (omega (arith, lt))
  get_elem?-set_phase_self zero p (q ∷ ps) lt = refl
  get_elem?-set_phase_self (suc i) p (q ∷ ps) lt = get_elem?-set_phase_self i p ps (omega arith)

  pub get_elem?-set_phase_other :
      (i j : ℕ) (p : Phase S) (ps : List (Phase S))
      → nat_eqb i j ≡ false
      → get_elem? (set_phase i p ps) j ≡ get_elem? ps j
  get_elem?-set_phase_other i j p [] ne = refl
  get_elem?-set_phase_other zero zero p (q ∷ ps) ne = ground arith
  get_elem?-set_phase_other zero (suc j) p (q ∷ ps) ne = refl
  get_elem?-set_phase_other (suc i) zero p (q ∷ ps) ne = refl
  get_elem?-set_phase_other (suc i) (suc j) p (q ∷ ps) ne =
      get_elem?-set_phase_other i j p ps (ground arith)

  pub is_outside-numbers :
      (p : Option (Phase S)) → is_outside p ≡ true → (left_in p ≡ 0) × (joined_in p ≡ 0)
  is_outside-numbers none h = (refl, refl)
  is_outside-numbers (some outside) h = (refl, refl)
  is_outside-numbers (some waiting) h = cc
  is_outside-numbers (some (returned s)) h = cc

  pub is_waiting-numbers :
      (p : Option (Phase S))
      → is_waiting p ≡ true
      → (left_in p ≡ 0) × (joined_in p ≡ 1) × (waits_in p ≡ 1)
  is_waiting-numbers none h = cc
  is_waiting-numbers (some outside) h = cc
  is_waiting-numbers (some waiting) h = (refl, refl, refl)
  is_waiting-numbers (some (returned s)) h = cc

  -- A worker that is not in Wait has left no fewer barriers than any other, and no more than any other
  -- has joined.
  pub left_in-bounds :
      (n i k : ℕ) (b : MasterStepBarrier S)
      → IsInStep n b
      → i < n
      → k < n
      → waits_in (get_elem? b.workers i) ≡ 0
      → (left_in (get_elem? b.workers k) ≤ left_in (get_elem? b.workers i))
        × (left_in (get_elem? b.workers i) ≤ joined_in (get_elem? b.workers k))
  left_in-bounds n i k b ok i_lt k_lt free = elim ok.in_turn [
    | inl none_notified ↦
        let k_left = none_left b.workers k (omega (arith, ok.left, none_notified)) in
        let i_left = none_left b.workers i (omega (arith, ok.left, none_notified)) in
        (omega arith, omega arith)
    | inr full ↦
        let nobody : count_outside b.workers ≡ 0 = omega (arith, ok.joined, full) in
        let k_in = all_joined b.workers k nobody (omega (arith, ok.all_workers)) in
        let i_in = all_joined b.workers i nobody (omega (arith, ok.all_workers)) in
        let i_split = joined_in-split (get_elem? b.workers i) in
        let k_split = joined_in-split (get_elem? b.workers k) in (omega arith, omega arith)
  ]

pub outsiders-numbers :
    (S : Type 0) (n k : ℕ)
    → (left_in (get_elem? (outsiders {S = S} n) k) ≡ 0)
      × (joined_in (get_elem? (outsiders {S = S} n) k) ≡ 0)
      × (waits_in (get_elem? (outsiders {S = S} n) k) ≡ 0)
outsiders-numbers S zero k = (refl, refl, refl)
outsiders-numbers S (suc n) zero = (refl, refl, refl)
outsiders-numbers S (suc n) (suc k) = outsiders-numbers S n k
