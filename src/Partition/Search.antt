-- ===== src/Partition/Search.antt =====
-- Go's sort.Search, as it is documented and implemented: the binary search for the first index in
-- [0, n) at which a test holds.
use etherscan.Base.{
  ℕ, zero, suc, ◌+◌, ◌/◌, ◌≡◌, ◌≤◌, ◌<◌, Bool, true, false, ltb, arith, Bool-cases, inl, inr,
}

-- The search in [i, j). Each round makes the interval shorter, so that its length is enough fuel.

unfoldable pub search_from : ℕ → (ℕ → Bool) → ℕ → ℕ → ℕ
search_from zero f i j = i
search_from (suc fuel) f i j =
    let h = (i + j) / 2 in
    elim (ltb i j) [
      | false ↦ i
      | true ↦ elim (f h) [ true ↦ search_from fuel f i h | false ↦ search_from fuel f (h + 1) j ]
    ]

unfoldable pub search : ℕ → (ℕ → Bool) → ℕ
unfolding search_from
search n f = search_from n f 0 n

module _ (f : ℕ → Bool) where
  -- What the search finds in [i, j), if the test fails below `i` and holds at `j` where that is in
  -- range.
  abbrev IsFound : ℕ → ℕ → ℕ → Type 0
  IsFound i j k =
      (i ≤ k) × (k ≤ j) × (k < j → f k ≡ true) × ((l : ℕ) → suc l ≡ k → i ≤ l → f l ≡ false)

  IsFound-lower : (i h j k : ℕ) → h < j → f h ≡ true → IsFound i h k → IsFound i j k
  IsFound-lower i h j k lt holds (lo, hi, at_k, before) =
      (lo, omega arith, (λ below. ground arith), before)

  IsFound-upper : (i h j k : ℕ) → i ≤ h → f h ≡ false → IsFound (h + 1) j k → IsFound i j k
  IsFound-upper i h j k le fails (lo, hi, at_k, before) =
      (omega arith, hi, at_k, λ l e from_i. ground (arith, before l))

  module _ (fuel i j : ℕ) (more : ltb i j ≡ true) where
    search_from_lower :
        f ((i + j) / 2) ≡ true → search_from (suc fuel) f i j ≡ search_from fuel f i ((i + j) / 2)
    unfolding search_from
    search_from_lower holds = ground arith

    search_from_upper :
        f ((i + j) / 2) ≡ false
        → search_from (suc fuel) f i j ≡ search_from fuel f ((i + j) / 2 + 1) j
    unfolding search_from
    search_from_upper fails = ground arith

  search_from_empty : (fuel i j : ℕ) → ltb i j ≡ false → search_from (suc fuel) f i j ≡ i
  unfolding search_from
  search_from_empty fuel i j empty = ground arith

  search_from-IsFound : (fuel i j : ℕ) → i ≤ j → j ≤ i + fuel → IsFound i j (search_from fuel f i j)
  unfolding search_from
  search_from-IsFound zero i j h enough =
      (omega arith, omega arith, (λ k. absurd (omega arith)), λ l e k. absurd (omega arith))
  search_from-IsFound (suc fuel) i j h enough =
      let mid = (i + j) / 2 in
      elim (Bool-cases (ltb i j)) [
        | inr empty ↦
            rw (search_from_empty fuel i j empty)
              (omega arith, h, (λ k. absurd (ground arith)), λ l e k. absurd (omega arith))
        | inl more ↦ elim (Bool-cases (f mid)) [
          | inl holds ↦ rw (search_from_lower fuel i j more holds) (
              IsFound-lower i mid j (search_from fuel f i mid) (ground arith) holds
                (search_from-IsFound fuel i mid (ground arith) (ground arith)))
          | inr fails ↦ rw (search_from_upper fuel i j more fails) (
              IsFound-upper i mid j (search_from fuel f (mid + 1) j) (ground arith) fails
                (search_from-IsFound fuel (mid + 1) j (ground arith) (ground arith)))
        ]
      ]

  -- The search ends in [0, n], the test holds where it ends below `n`, and fails just before.
  pub search-IsFound :
      (n : ℕ)
      → (search n f ≤ n)
        × (search n f < n → f (search n f) ≡ true)
        × ((l : ℕ) → suc l ≡ search n f → f l ≡ false)
  unfolding search
  search-IsFound n =
      let (lo, hi, at_k, before) = search_from-IsFound n 0 n (omega arith) (omega arith) in
      (hi, at_k, λ l e. before l e (omega arith))
