-- ===== src/Partition/Range/Building.antt =====
-- depl/monolith/partition/range.go: the range that NewRange builds.
use etherscan.Base.{
  ap₂, ap, ℕ, zero, suc, ◌+◌, ◌≡◌, ◌<◌, refl, ◌∙◌, true, none, some, length, get_elem?, ℤ, pos,
  arith, inl, inr, Option-cases,
}
use etherscan.Base.Text.{Text, text_ltb}
use etherscan.Partition.Hex.{parse_hex, format_hex, mul}
use etherscan.Partition.Range.{Range, split_at, splits_from, part_size, new_range, extents}

length-splits_from :
    (size : ℤ) (max_addr : Text) (p n : ℕ) → length (splits_from size max_addr p n) ≡ n
unfolding splits_from
length-splits_from size max_addr p zero = refl
length-splits_from size max_addr p (suc zero) = refl
length-splits_from size max_addr p (suc (suc n)) =
    omega (arith, length-splits_from size max_addr (p + 1) (suc n))

last-splits_from :
    (size : ℤ) (max_addr : Text) (p n : ℕ)
    → get_elem? (splits_from size max_addr p (suc n)) n ≡ some max_addr
unfolding splits_from
last-splits_from size max_addr p zero = refl
last-splits_from size max_addr p (suc n) = last-splits_from size max_addr (p + 1) n

boundary-splits_from :
    (size : ℤ) (max_addr : Text) (p n i : ℕ)
    → i < n
    → get_elem? (splits_from size max_addr p (suc n)) i ≡ some (format_hex (mul size (p + i + 1)))
unfolding splits_from
boundary-splits_from size max_addr p zero i h = absurd (omega arith)
boundary-splits_from size max_addr p (suc n) zero h =
    ap (λ (k : ℕ). some (format_hex (mul size k))) (omega arith)
boundary-splits_from size max_addr p (suc n) (suc i) h =
    boundary-splits_from size max_addr (p + 1) n i (omega arith)
    ∙ ap (λ (k : ℕ). some (format_hex (mul size k))) (omega arith)

-- The range with `n` partitions of a size.
abbrev pub range_of : Text → Text → ℕ → ℤ → Range
range_of min_addr max_addr n size = record {
  start = min_addr;
  range_splits = splits_from size max_addr 0 n;
}

-- What NewRange was given and builds when it returns no error.
abbrev pub IsBuilt : Text → Text → ℕ → Range → Type 0
IsBuilt min_addr max_addr n r =
    (a : ℤ) × (b : ℤ) × (parse_hex min_addr ≡ some a)
    × (parse_hex max_addr ≡ some b)
    × (0 < n)
    × (text_ltb min_addr max_addr ≡ true)
    × (r ≡ range_of min_addr max_addr n (part_size a b n))

new_range-IsBuilt :
    (min_addr max_addr : Text) (n : ℕ) (r : Range)
    → new_range min_addr max_addr (pos n) ≡ (some r, none)
    → IsBuilt min_addr max_addr n r
unfolding new_range
new_range-IsBuilt min_addr max_addr n r h = elim (Option-cases (parse_hex min_addr)) [
  | inl bad ↦ ground arith
  | inr (a, at_a) ↦ elim (Option-cases (parse_hex max_addr)) [
    | inl bad ↦ ground arith
    | inr (b, at_b) ↦ (a, b, at_a, at_b, ground arith, ground arith, ground arith)
  ]
]

extents-range_of :
    (min_addr max_addr : Text) (n : ℕ) (size : ℤ)
    → extents (range_of min_addr max_addr (suc n) size) ≡ some (min_addr, max_addr)
unfolding extents
extents-range_of min_addr max_addr n size =
    ground (arith, length-splits_from size max_addr 0 (suc n), last-splits_from size max_addr 0 n)

plus_zero : (i : ℕ) → 0 + i + 1 ≡ i + 1
plus_zero i = omega arith

boundary-range_of :
    (min_addr max_addr : Text) (n i : ℕ) (size : ℤ)
    → suc i < n
    → split_at i (range_of min_addr max_addr n size) ≡ format_hex (mul size (i + 1))
boundary-range_of min_addr max_addr zero i size h = absurd (omega arith)
boundary-range_of min_addr max_addr (suc n) i size h = ground (
  arith,
  boundary-splits_from size max_addr 0 n i (omega arith),
  ap (λ (k : ℕ). format_hex (mul size k)) (plus_zero i),
)

-- A range that NewRange returns has the number of partitions and the extents that it was asked for,
-- which are not empty.
new_range-extents :
    (min_addr max_addr : Text) (n : ℕ) (r : Range)
    → new_range min_addr max_addr (pos n) ≡ (some r, none)
    → (extents r ≡ some (min_addr, max_addr))
      × (length r.range_splits ≡ n)
      × (text_ltb min_addr max_addr ≡ true)
new_range-extents min_addr max_addr zero r h =
    let (a, b, at_a, at_b, some_part, less, built) = new_range-IsBuilt min_addr max_addr zero r h in
    absurd (omega arith)
new_range-extents min_addr max_addr (suc n) r h =
    let (a, b, at_a, at_b, some_part, less, built) =
      new_range-IsBuilt min_addr max_addr (suc n) r h in
    (
      ap extents built ∙ extents-range_of min_addr max_addr n (part_size a b (suc n)),
      ap (λ (x : Range). length x.range_splits) built
          ∙ length-splits_from (part_size a b (suc n)) max_addr 0 (suc n),
      less,
    )

-- Every partition but the last ends at a multiple of the size of a partition, counted from 0 and
-- not from the start of the range.
pub new_range_boundary :
    (min_addr max_addr : Text) (n i : ℕ) (a b : ℤ) (r : Range)
    → new_range min_addr max_addr (pos n) ≡ (some r, none)
    → parse_hex min_addr ≡ some a
    → parse_hex max_addr ≡ some b
    → suc i < n
    → split_at i r ≡ format_hex (mul (part_size a b n) (i + 1))
new_range_boundary min_addr max_addr n i a b r h at_a at_b inside =
    let (a', b', at_a', at_b', some_part, less, built) =
      new_range-IsBuilt min_addr max_addr n r h in
    ap (split_at i) built
    ∙ boundary-range_of min_addr max_addr n i (part_size a' b' n) inside
    ∙ ap₂ (λ x y. format_hex (mul (part_size x y n) (i + 1))) (ground arith) (ground arith)
