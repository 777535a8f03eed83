-- ===== src/Partition/Range.antt =====
-- depl/monolith/partition/range.go: a range of wallet addresses, split into partitions.
pub mod Addresses
pub mod Building
use etherscan.Base.{
  ℕ, zero, suc, ◌+◌, ◌-◌, Bool, true, false, not, ◌||◌, Option, none, some, List, [], ◌∷◌, length,
  get_elem?, leb, ltb, nat_eqb, if◌then◌else◌, ℤ, pos, negsuc, ◌+ℤ◌, ◌-ℤ◌,
}
use etherscan.Base.Text.{Text, codes, text_ltb, text_geb}
use etherscan.Partition.Hex.{parse_hex, format_hex, div, mul}
use etherscan.Partition.Search.{search}

-- `panicked` is a run-time error, which ends the program.
pub data Error : Type 0 where
  min_not_less no_partitions invalid_partition : Error
  parse_min_failed parse_max_failed not_detected : Text → Error
  panicked : Error

pub record Range : Type 0 where
  pub start : Text
  pub range_splits : List Text

-- The loop from `partition` on, over `left` partitions: all but the last end at a boundary.
unfoldable pub splits_from : ℤ → Text → ℕ → ℕ → List Text
splits_from part_size max_addr partition zero = []
splits_from part_size max_addr partition (suc zero) = max_addr ∷ []
splits_from part_size max_addr partition (suc (suc left)) =
    format_hex (mul part_size (partition + 1))
    ∷ splits_from part_size max_addr (partition + 1) (suc left)

-- (maxAddr - minAddr + 1) / numPartitions
unfoldable pub part_size : ℤ → ℤ → ℕ → ℤ
part_size min_addr_int max_addr_int n = div (max_addr_int -ℤ min_addr_int +ℤ pos 1) n

-- `make` panics for a negative number.
unfoldable pub new_range : Text → Text → ℤ → Option Range × Option Error
unfolding splits_from part_size
new_range min_addr max_addr (negsuc n) = (none, some panicked)
new_range min_addr max_addr (pos n) =
    if text_geb min_addr max_addr
    then (none, some min_not_less)
    else if nat_eqb n 0
    then (none, some no_partitions)
    else elim (parse_hex min_addr) [
      | none ↦ (none, some (parse_min_failed min_addr))
      | some min_addr_int ↦ elim (parse_hex max_addr) [
        | none ↦ (none, some (parse_max_failed max_addr))
        | some max_addr_int ↦ (
          some (record {
            start = min_addr;
            range_splits = splits_from (part_size min_addr_int max_addr_int n) max_addr 0 n;
          }),
          none,
        )
      ]
    ]

unfoldable pub new_full_range : ℤ → Option Range × Option Error
unfolding new_range
new_full_range =
    new_range (codes "0000000000000000000000000000000000000000")
      (codes "ffffffffffffffffffffffffffffffffffffffff")

-- The slot with an index that is in range.
abbrev pub split_at : ℕ → Range → Text
split_at i r = elim (get_elem? r.range_splits i) [ none ↦ [] | some s ↦ s ]

-- `none` is the panic of an empty range, which NewRange does not build.
unfoldable pub extents : Range → Option (Text × Text)
extents r = elim (length r.range_splits) [ zero ↦ none | suc n ↦ some (r.start, split_at n r) ]

unfoldable pub partition_extents : ℤ → Range → (Text × Text) × Option Error
partition_extents (negsuc n) r = (([], []), some invalid_partition)
partition_extents (pos n) r =
    if leb (length r.range_splits) n then (([], []), some invalid_partition) else elim n [
      | zero ↦ ((r.start, split_at 0 r), none)
      | suc m ↦ ((split_at m r, split_at (suc m) r), none)
    ]

unfoldable pub partition_for_addr : Text → Range → ℤ × Option Error
unfolding search
partition_for_addr address r =
    let part_index = search (length r.range_splits) (λ n. text_ltb address (split_at n r)) in
    if text_ltb address r.start || leb (length r.range_splits) part_index
    then (negsuc 0, some (not_detected address))
    else (pos part_index, none)
