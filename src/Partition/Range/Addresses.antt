-- ===== src/Partition/Range/Addresses.antt =====
-- depl/monolith/partition/range.go: an address is found in the partition that has it.
use etherscan.Base.{
  nat_eqb_iff, ◌⊎◌, ℕ, zero, suc, ◌-◌, ◌≡◌, ◌≤◌, ◌<◌, refl, true, false, ◌||◌, none, some, length,
  leb, ltb, nat_eqb, pos, negsuc, arith, Bool-cases, inl, inr,
}
use etherscan.Base.Text.{Text, text_ltb, text_ltb_trans}
use etherscan.Partition.Search.{search, search-IsFound}
use etherscan.Partition.Range.{Range, not_detected, split_at, partition_extents, partition_for_addr}

module _ (r : Range) where
  -- The address lies in [lo, hi) of a partition that there is.
  abbrev pub IsIn : ℕ → Text → Type 0
  IsIn p address =
      (lo : Text) × (hi : Text) × (partition_extents (pos p) r ≡ ((lo, hi), none))
      × (text_ltb address lo ≡ false)
      × (text_ltb address hi ≡ true)

  -- What the search in PartitionForAddr ends at.
  abbrev slot : Text → ℕ
  slot address = search (length r.range_splits) (λ n. text_ltb address (split_at n r))

  slot_of :
      (p : ℕ) (address : Text)
      → p < length r.range_splits
      → (p ≡ 0 → text_ltb address r.start ≡ false)
      → ((l : ℕ) → suc l ≡ p → text_ltb address (split_at l r) ≡ false)
      → text_ltb address (split_at p r) ≡ true
      → IsIn p address
  unfolding partition_extents
  slot_of zero address h first before at_p = (r.start, split_at 0 r, ground arith, first refl, at_p)
  slot_of (suc m) address h first before at_p =
      (split_at m r, split_at (suc m) r, ground arith, before m refl, at_p)

  -- The address is not below the start of the range or the end of the partition before.
  abbrev IsAtSlot : ℕ → Text → Type 0
  IsAtSlot p address =
      (p < length r.range_splits)
      × (p ≡ 0 → text_ltb address r.start ≡ false)
      × ((l : ℕ) → suc l ≡ p → text_ltb address (split_at l r) ≡ false)
      × (text_ltb address (split_at p r) ≡ true)

  partition_extents_range :
      (p : ℕ) {e : Text × Text}
      → partition_extents (pos p) r ≡ (e, none)
      → p < length r.range_splits
  unfolding partition_extents
  partition_extents_range zero h = ground arith
  partition_extents_range (suc m) h = ground arith

  partition_extents_bounds :
      (p : ℕ) (lo hi : Text)
      → partition_extents (pos p) r ≡ ((lo, hi), none)
      → (hi ≡ split_at p r) × (p ≡ 0 → lo ≡ r.start) × ((l : ℕ) → suc l ≡ p → lo ≡ split_at l r)
  unfolding partition_extents
  partition_extents_bounds zero lo hi h =
      (ground arith, (λ e. ground arith), λ l e. absurd (omega arith))
  partition_extents_bounds (suc m) lo hi h =
      (ground arith, (λ e. absurd (omega arith)), λ l e. ground arith)

  at_slot : (p : ℕ) (address : Text) → IsIn p address → IsAtSlot p address
  at_slot p address (lo, hi, ends, above, below) =
      let (hi_is, first, before) = partition_extents_bounds p lo hi ends in
      (
        partition_extents_range p ends,
        (λ e. rw (first e) at above),
        (λ l e. rw (before l e) at above),
        rw hi_is at below,
      )

  -- What PartitionForAddr answers is right for every range, sorted or not: the address lies within
  -- the extents of the partition that it names, and an error comes with -1 and the address.
  pub partition_for_addr_lem :
      (address : Text)
      → ((p : ℕ) × (partition_for_addr address r ≡ (pos p, none)) × IsIn p address)
        ⊎ (partition_for_addr address r ≡ (negsuc 0, some (not_detected address)))
  unfolding partition_for_addr
  partition_for_addr_lem address =
      elim (Bool-cases (text_ltb address r.start || leb (length r.range_splits) (slot address))) [
        | inl refused ↦ inr (rw refused refl)
        | inr accepted ↦
            let (_, at_k, before) =
              search-IsFound (λ n. text_ltb address (split_at n r)) (length r.range_splits) in
            inl (
              slot address,
              rw accepted refl,
              slot_of (slot address) address (ground arith) (λ e. ground arith) before
                  (at_k (ground arith)),
            )
      ]

  -- The ends of the partitions grow.
  abbrev pub IsSorted : Type 0
  IsSorted =
      (i j : ℕ) → i < j → j < length r.range_splits → text_ltb (split_at i r) (split_at j r) ≡ true

  -- Ends below the partition do not exceed the address.
  below_slot :
      (p l : ℕ) (address : Text)
      → IsSorted
      → IsAtSlot p address
      → l < p
      → text_ltb address (split_at l r) ≡ false
  below_slot zero l address sorted at_p lt = absurd (omega arith)
  below_slot (suc m) l address sorted (inside, _, before, _) lt = elim (Bool-cases (nat_eqb l m)) [
    | inl same ↦ before l (ground arith)
    | inr lower ↦ ground (
      arith,
      before m refl,
      sorted l m (ground arith) (omega arith),
      text_ltb_trans address (split_at l r) (split_at m r),
    )
  ]

  above_slot :
      (p l : ℕ) (address : Text)
      → IsSorted
      → IsAtSlot p address
      → p ≤ l
      → l < length r.range_splits
      → text_ltb address (split_at l r) ≡ true
  above_slot p l address sorted (inside, _, _, at_p) le last = elim (Bool-cases (nat_eqb p l)) [
    | inl same ↦ rw (← (nat_eqb_iff p l).0 same) at_p
    | inr higher ↦
        text_ltb_trans address (split_at p r) (split_at l r) at_p (sorted p l (ground arith) last)
  ]

  not_below_start :
      (p : ℕ) (address : Text)
      → IsSorted
      → text_ltb r.start (split_at 0 r) ≡ true
      → IsAtSlot p address
      → text_ltb address r.start ≡ false
  not_below_start zero address sorted starts (_, first, _, _) = first refl
  not_below_start (suc m) address sorted starts at_p = ground (
    arith,
    below_slot (suc m) 0 address sorted at_p (omega arith),
    text_ltb_trans address r.start (split_at 0 r),
  )

  slot_lem : (p : ℕ) (address : Text) → IsSorted → IsAtSlot p address → slot address ≡ p
  slot_lem p address sorted at_p =
      let (hi, at_k, before) =
        search-IsFound (λ n. text_ltb address (split_at n r)) (length r.range_splits) in
      elim (Bool-cases (ltb (slot address) p)) [
        | inl lower ↦ absurd (
            ground (
              arith,
              at_k (ground (arith, at_p.0)),
              below_slot p (slot address) address sorted at_p (ground arith),
            ))
        | inr high ↦ elim (Bool-cases (ltb p (slot address))) [
          | inl higher ↦ absurd (
              ground (
                arith,
                before (slot address - 1) (ground arith),
                above_slot p (slot address - 1) address sorted at_p (ground arith) (ground arith),
              ))
          | inr low ↦ ground arith
        ]
      ]

  -- In a range whose ends grow from its start on, PartitionForAddr finds the partition of every
  -- address that lies within the extents of one.
  pub partition_for_addr_finds :
      (address : Text) (p : ℕ)
      → IsSorted
      → text_ltb r.start (split_at 0 r) ≡ true
      → IsIn p address
      → partition_for_addr address r ≡ (pos p, none)
  unfolding partition_for_addr
  partition_for_addr_finds address p sorted starts is_in =
      let at_p = at_slot p address is_in in
      rw (slot_lem p address sorted at_p)
        (ground (arith, not_below_start p address sorted starts at_p, at_p.0))
