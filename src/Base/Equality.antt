-- ===== src/Base/Equality.antt =====
-- Go's `==` on comparable types: an interface with its law, and the instance for numbers.
use Prim.Native.Nat.{ℕ}
use mathlib.Core.Path.{◌≡◌, refl}
use mathlib.Core.Logic.{◌↔◌, ◌≢◌}
use mathlib.Core.Bool.{Bool, true, false}
use native.Mathlib.Omega.{arith}
use etherscan.Base.Tests.{nat_eqb, nat_eqb_iff}

-- The test `is_same` decides equality.
pub record Comparable {ℓ} (K : Type ℓ) : Type ℓ where
  pub is_same : K → K → Bool
  pub is_same_iff : (x y : K) → (is_same x y ≡ true) ↔ (x ≡ y)

module _ {ℓ} {K : Type ℓ} ⦃c : Comparable K⦄ where
  infix 50 ◌==◌
  abbrev pub ◌==◌ : K → K → Bool
  x == y = c.is_same x y

  pub ==_iff : (x y : K) → ((x == y) ≡ true) ↔ (x ≡ y)
  ==_iff = c.is_same_iff

  pub ==_refl : (x : K) → (x == x) ≡ true
  ==_refl x = (==_iff x x).1 refl

  pub ==_ne : (x y : K) → x ≢ y → (x == y) ≡ false
  ==_ne x y h = ground (arith, ==_iff x y)

  pub ==_comm : (x y : K) → (x == y) ≡ (y == x)
  ==_comm x y = ground (arith, ==_iff x y, ==_iff y x)

instance abbrev pub nat_eq : Comparable ℕ
nat_eq = record { is_same = nat_eqb; is_same_iff = nat_eqb_iff }
