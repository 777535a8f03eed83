-- ===== src/Partition/Examples.antt =====
-- depl/monolith/partition/: runs at concrete inputs.
use etherscan.Base.{
  ◌+ℤ◌, ◌-ℤ◌, ℕ, zero, suc, ◌≡◌, ◌⊎◌, refl, Option, none, some, [], ◌∷◌, ℤ, pos, negsuc, arith,
}
use etherscan.Base.Text.{Text, codes, text_ltb}
use etherscan.Partition.Hex.{
  format_hex, mul, parse_hex, parse_nat, parse_digits, hex_value, div, format_digits, hex_digit,
}
use etherscan.Partition.Search.{search, search_from}
use etherscan.Partition.Range.{
  Range, Error, not_detected, new_range, new_full_range, split_at, splits_from, part_size,
  partition_for_addr, partition_extents,
}
use etherscan.Partition.Range.Addresses.{
  IsIn, IsSorted, partition_for_addr_lem, partition_for_addr_finds,
}
use etherscan.Partition.Range.Building.{new_range_boundary}

-- [00, ff) in three partitions.

abbrev three_parts : Range
three_parts = record {
  start = codes "00";
  range_splits = codes "55" ∷ codes "aa" ∷ codes "ff" ∷ [];
}

-- The last address belongs to no partition.
partition_for_addr_example :
    ((p : ℕ) × (partition_for_addr (codes "ff") three_parts ≡ (pos p, none))
      × IsIn three_parts p (codes "ff"))
    ⊎ (partition_for_addr (codes "ff") three_parts ≡ (negsuc 0, some (not_detected (codes "ff"))))
partition_for_addr_example = partition_for_addr_lem three_parts (codes "ff")

three_parts-IsSorted : IsSorted three_parts
unfolding text_ltb
three_parts-IsSorted zero zero h inside = absurd (omega arith)
three_parts-IsSorted zero (suc zero) h inside = refl
three_parts-IsSorted zero (suc (suc zero)) h inside = refl
three_parts-IsSorted (suc zero) zero h inside = absurd (omega arith)
three_parts-IsSorted (suc zero) (suc zero) h inside = absurd (omega arith)
three_parts-IsSorted (suc zero) (suc (suc zero)) h inside = refl
three_parts-IsSorted (suc (suc i)) zero h inside = absurd (omega arith)
three_parts-IsSorted (suc (suc i)) (suc zero) h inside = absurd (omega arith)
three_parts-IsSorted (suc (suc i)) (suc (suc zero)) h inside = absurd (omega arith)
three_parts-IsSorted i (suc (suc (suc j))) h inside = absurd (omega arith)

partition_for_addr_finds_example : partition_for_addr (codes "7b") three_parts ≡ (pos 1, none)
unfolding text_ltb partition_extents
partition_for_addr_finds_example =
    partition_for_addr_finds three_parts (codes "7b") 1 three_parts-IsSorted refl
      (codes "55", codes "aa", refl, refl, refl)

new_range_test : new_range (codes "00") (codes "ff") (pos 3) ≡ (some three_parts, none)
unfolding new_range splits_from part_size div mul parse_hex parse_nat parse_digits hex_value
    format_hex format_digits hex_digit text_ltb ◌+ℤ◌ ◌-ℤ◌
new_range_test = refl

new_range_boundary_example :
    split_at 1 three_parts ≡ format_hex (mul (part_size (pos 0) (pos 255) 3) 2)
unfolding parse_hex parse_nat parse_digits hex_value
new_range_boundary_example =
    new_range_boundary (codes "00") (codes "ff") 3 1 (pos 0) (pos 255) three_parts new_range_test
      refl refl (omega arith)

-- The boundary is counted from 0: the first of two partitions of [80, ff) ends below its start.
new_range_offset_test :
    new_range (codes "80") (codes "ff") (pos 2)
    ≡ (some (record { start = codes "80"; range_splits = codes "40" ∷ codes "ff" ∷ [] }), none)
unfolding new_range splits_from part_size div mul parse_hex parse_nat parse_digits hex_value
    format_hex format_digits hex_digit text_ltb ◌+ℤ◌ ◌-ℤ◌
new_range_offset_test = refl

abbrev found_in : Option Range × Option Error → Text → ℤ × Option Error
found_in (none, e) address = (negsuc 0, e)
found_in (some r, e) address = partition_for_addr address r

-- The first boundary of 17 partitions has 39 digits and lies above all but the last of the others,
-- so that an address of the second partition is looked up in the first.
full_range_17_test :
    found_in (new_full_range (pos 17)) (codes "1000000000000000000000000000000000000000")
    ≡ (pos 0, none)
unfolding new_full_range new_range splits_from part_size div mul parse_hex parse_nat parse_digits
    hex_value format_hex format_digits hex_digit text_ltb ◌+ℤ◌ ◌-ℤ◌ partition_for_addr search
    search_from
full_range_17_test = refl
