-- ===== src/Base/Decimal.antt =====
-- What the sources use of math/big's Int for texts: String and `SetString(s, 10)`.
use Prim.Native.Nat.{ℕ, zero, suc, ◌+◌, ◌-◌, ◌*◌, ◌/◌, ◌%◌, ◌≤◌, ◌<◌}
use mathlib.Core.Path.{◌≡◌, refl, ◌∙◌}
use mathlib.Core.Logic.{◌⊎◌, inl, inr}
use mathlib.Core.Bool.{◌&&◌, ◌||◌, Bool, true, false}
use mathlib.Core.Option.{Option, none, some}
use mathlib.Core.List.{[], ◌∷◌, ◌++◌}
use native.Mathlib.Omega.{arith}
use etherscan.Base.Tests.{if◌then◌else◌, leb, nat_eqb}
use etherscan.Base.Ints.{ℤ, pos, negsuc, sub_ℕ}
use etherscan.Base.Text.{Text}

unfoldable digits_value : Text → ℕ → Option ℕ
digits_value [] n = some n
digits_value (c ∷ s) n = if leb 48 c && leb c 57 then digits_value s (n * 10 + (c - 48)) else none

-- At least one digit.
unfoldable unsigned_value : Text → Option ℕ
unfolding digits_value
unsigned_value [] = none
unsigned_value (c ∷ s) = digits_value (c ∷ s) 0

-- SetString(s, 10), with an optional sign; `none` is the `false` of a failure.
unfoldable pub set_string : Text → Option ℤ
unfolding unsigned_value
set_string [] = none
set_string (c ∷ s) =
    if nat_eqb c 43
    then (elim (unsigned_value s) [ none ↦ none | some n ↦ some (pos n) ])
    else if nat_eqb c 45
    then (elim (unsigned_value s) [ none ↦ none | some n ↦ some (sub_ℕ 0 n) ])
    else (elim (unsigned_value (c ∷ s)) [ none ↦ none | some n ↦ some (pos n) ])

-- The digits of `n` before those in `s`; each of them takes one unit of fuel.
unfoldable digits : ℕ → ℕ → Text → Text
digits zero n s = s
digits (suc fuel) n s =
    let s' = (48 + n % 10) ∷ s in elim (n / 10) [ zero ↦ s' | suc q ↦ digits fuel (suc q) s' ]

-- String()
unfoldable pub to_string : ℤ → Text
unfolding digits
to_string (pos n) = digits (suc n) n []
to_string (negsuc n) = 45 ∷ digits (suc (suc n)) (suc n) []

Nat-cases : (n : ℕ) → (n ≡ 0) ⊎ ((m : ℕ) × (n ≡ suc m))
Nat-cases zero = inl refl
Nat-cases (suc m) = inr (m, refl)

digits-value :
    (fuel n : ℕ) (s : Text) → n < fuel → digits_value (digits fuel n s) 0 ≡ digits_value s n
unfolding digits_value digits
digits-value zero n s h = absurd (omega arith)
digits-value (suc fuel) n s h = ground (arith, digits-value fuel (n / 10) ((48 + n % 10) ∷ s))

digits_last : (fuel n : ℕ) (s : Text) → n / 10 ≡ 0 → digits (suc fuel) n s ≡ (48 + n % 10) ∷ s
unfolding digits
digits_last fuel n s h = ground arith

digits_more :
    (fuel n q : ℕ) (s : Text)
    → n / 10 ≡ suc q
    → digits (suc fuel) n s ≡ digits fuel (suc q) ((48 + n % 10) ∷ s)
unfolding digits
digits_more fuel n q s h = ground arith

-- The digits start with a digit.
digits-head :
    (fuel n : ℕ) (s : Text)
    → (c : ℕ) × (rest : Text) × (digits (suc fuel) n s ≡ c ∷ rest) × (48 ≤ c)
unfolding digits
digits-head zero n s = (48 + n % 10, s, ground arith, omega arith)
digits-head (suc fuel) n s = elim (Nat-cases (n / 10)) [
  | inl last ↦ (48 + n % 10, s, digits_last (suc fuel) n s last, omega arith)
  | inr (q, more) ↦
      let (c, rest, e, digit) = digits-head fuel (suc q) ((48 + n % 10) ∷ s) in
      (c, rest, digits_more (suc fuel) n q s more ∙ e, digit)
]

digits-unsigned_value : (n : ℕ) → unsigned_value (digits (suc n) n []) ≡ some n
unfolding unsigned_value digits_value
digits-unsigned_value n = ground (arith, digits-head n n [], digits-value (suc n) n [])

pub set_string-to_string : (n : ℤ) → set_string (to_string n) ≡ some n
unfolding set_string to_string
set_string-to_string (pos n) = ground (arith, digits-head n n [], digits-unsigned_value n)
set_string-to_string (negsuc n) = ground (arith, digits-unsigned_value (suc n))

-- The text contains a dash.
unfoldable pub has_dash : Text → Bool
has_dash [] = false
has_dash (c ∷ s) = nat_eqb c 45 || has_dash s

no_dash-digits : (fuel n : ℕ) (s : Text) → has_dash s ≡ false → has_dash (digits fuel n s) ≡ false
unfolding has_dash digits
no_dash-digits zero n s h = h
no_dash-digits (suc fuel) n s h = ground (arith, no_dash-digits fuel (n / 10) ((48 + n % 10) ∷ s))

pub no_dash-to_string : (n : ℕ) → has_dash (to_string (pos n)) ≡ false
unfolding to_string has_dash
no_dash-to_string n = no_dash-digits (suc n) n [] refl

pub has_dash-append : (s t : Text) → has_dash (s ++ 45 ∷ t) ≡ true
unfolding has_dash
has_dash-append [] t = refl
has_dash-append (c ∷ s) t = ground (arith, has_dash-append s t)
