-- ===== src/Rpc/Words.antt =====
-- Go's conversion of an int to an int32.
use etherscan.Base.{
  ℕ, ◌-◌, ◌%◌, ◌≡◌, ltb, if◌then◌else◌, ℤ, pos, negsuc, sub_ℕ, arith, ◌↔◌, Bool, true,
}

-- 2 ^ 32, and half of it

abbrev pub word : ℕ
word = 4294967296

abbrev pub half : ℕ
half = 2147483648

-- int32(n): the low 32 bits, read as a signed number.
unfoldable pub int32 : ℤ → ℤ
int32 (pos n) = let m = n % word in if ltb m half then pos m else sub_ℕ m word
int32 (negsuc n) = let m = n % word in if ltb m half then negsuc m else sub_ℕ (word - 1) m

-- -2^31 <= n < 2^31
unfoldable pub fits_int32 : ℤ → Bool
fits_int32 (pos n) = ltb n half
fits_int32 (negsuc n) = ltb n half

-- The conversion keeps exactly the numbers from -2^31 up to 2^31 - 1.
pub int32-fits : (n : ℤ) → (int32 n ≡ n) ↔ (fits_int32 n ≡ true)
unfolding int32 fits_int32
int32-fits (pos n) = ground arith
int32-fits (negsuc n) = ground arith
