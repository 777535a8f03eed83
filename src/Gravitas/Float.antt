-- ===== src/Gravitas/Float.antt =====
-- What the score calculation uses of math/big's Float, at the 53 bits of `big.NewFloat`. A float
-- that stands for an integer does so exactly, and sums and differences are exact as long as the
-- result has at most 53 bits; beyond that the model leaves the rounding open.
use etherscan.Base.{ℕ, ◌≤◌, ◌≡◌, refl, ap₂, ℤ, pos, nat_abs, ◌+ℤ◌, ◌-ℤ◌}

-- 2 ^ 53
abbrev pub exact_limit : ℕ
exact_limit = 9007199254740992

pub record BigFloat : Type 1 where
  pub Carrier : Type 0
  -- big.NewFloat(0)
  pub zero_float : Carrier
  -- z.Set(x) for a z of 53 bits
  pub set : Carrier → Carrier
  -- new(big.Float).SetInt(x)
  pub set_int : ℤ → Carrier
  -- z.Add(x, y) and z.Sub(x, y) for a z of 53 bits
  pub add : Carrier → Carrier → Carrier
  pub sub : Carrier → Carrier → Carrier
  -- `Is x n`: x is the integer n.
  pub Is : Carrier → ℤ → Type 0
  pub zero_is : Is zero_float (pos 0)
  pub set_is : (x : Carrier) (n : ℤ) → nat_abs n ≤ exact_limit → Is x n → Is (set x) n
  pub set_int_is : (n : ℤ) → Is (set_int n) n
  pub add_is :
      (x y : Carrier) (m n : ℤ)
      → nat_abs (m +ℤ n) ≤ exact_limit
      → Is x m
      → Is y n
      → Is (add x y) (m +ℤ n)
  pub sub_is :
      (x y : Carrier) (m n : ℤ)
      → nat_abs (m -ℤ n) ≤ exact_limit
      → Is x m
      → Is y n
      → Is (sub x y) (m -ℤ n)

-- Floats without rounding meet the laws.
abbrev pub exact : BigFloat
exact = record {
  Carrier = ℤ;
  zero_float = pos 0;
  set = λ x. x;
  set_int = λ n. n;
  add = ◌+ℤ◌;
  sub = ◌-ℤ◌;
  Is = λ x n. x ≡ n;
  zero_is = refl;
  set_is = λ x n h e. e;
  set_int_is = λ n. refl;
  add_is = λ x y m n h d e. ap₂ ◌+ℤ◌ d e;
  sub_is = λ x y m n h d e. ap₂ ◌-ℤ◌ d e;
}
