-- ===== src/Partition/Hex.antt =====
-- What depl/monolith/partition/range.go uses of math/big: `SetString(s, 16)`, division by a positive
-- number, multiplication by one, and the format `%x`.
use etherscan.Base.{
  ℕ, zero, suc, ◌+◌, ◌-◌, ◌*◌, ◌/◌, ◌%◌, ◌&&◌, Option, none, some, [], ◌∷◌, if◌then◌else◌, ltb, leb,
  ℤ, pos, negsuc, sub_ℕ,
}
use etherscan.Base.Text.{Text}

-- The value of a byte as a hexadecimal digit, in either case.

unfoldable pub hex_value : ℕ → Option ℕ
hex_value c =
    if leb 48 c && leb c 57
    then some (c - 48)
    else if leb 97 c && leb c 102
    then some (c - 87)
    else if leb 65 c && leb c 70
    then some (c - 55)
    else none

unfoldable pub parse_digits : Text → ℕ → Option ℕ
unfolding hex_value
parse_digits [] n = some n
parse_digits (c ∷ s) n = elim (hex_value c) [ none ↦ none | some d ↦ parse_digits s (n * 16 + d) ]

-- At least one digit.
unfoldable pub parse_nat : Text → Option ℕ
unfolding parse_digits
parse_nat [] = none
parse_nat (c ∷ s) = parse_digits (c ∷ s) 0

-- An optional sign, `+` or `-`.
unfoldable pub parse_hex : Text → Option ℤ
unfolding parse_nat
parse_hex [] = none
parse_hex (c ∷ s) =
    if leb c 43 && leb 43 c
    then (elim (parse_nat s) [ none ↦ none | some n ↦ some (pos n) ])
    else if leb c 45 && leb 45 c
    then (elim (parse_nat s) [ none ↦ none | some n ↦ some (sub_ℕ 0 n) ])
    else (elim (parse_nat (c ∷ s)) [ none ↦ none | some n ↦ some (pos n) ])

-- x.Div(x, n) for n > 0, rounded down.
unfoldable pub div : ℤ → ℕ → ℤ
div (pos a) n = pos (a / n)
div (negsuc a) n = negsuc (a / n)

unfoldable pub mul : ℤ → ℕ → ℤ
mul (pos a) n = pos (a * n)
mul (negsuc a) n = sub_ℕ 0 (suc a * n)

unfoldable pub hex_digit : ℕ → ℕ
hex_digit d = if ltb d 10 then 48 + d else 87 + d

-- The digits of `n` before those in `s`; each of them takes one unit of fuel.
unfoldable pub format_digits : ℕ → ℕ → Text → Text
unfolding hex_digit
format_digits zero n s = s
format_digits (suc fuel) n s =
    let s' = hex_digit (n % 16) ∷ s in
    elim (n / 16) [ zero ↦ s' | suc q ↦ format_digits fuel (suc q) s' ]

unfoldable pub format_hex : ℤ → Text
unfolding format_digits
format_hex (pos n) = format_digits (suc n) n []
format_hex (negsuc n) = 45 ∷ format_digits (suc (suc n)) (suc n) []
