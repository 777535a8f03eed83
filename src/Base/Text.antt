-- ===== src/Base/Text.antt =====
-- Go's strings: sequences of bytes, compared byte by byte.
use Prim.Native.Nat.{ℕ}
use Prim.Native.Char.{code}
use Prim.Native.String.{String}
use mathlib.Core.Path.{◌≡◌, refl}
use mathlib.Core.Logic.{◌↔◌}
use mathlib.Core.Bool.{Bool, true, false, not, ◌&&◌, ◌||◌}
use mathlib.Core.List.{List, [], ◌∷◌}
use native.Mathlib.Omega.{arith}
use etherscan.Base.Tests.{ltb, nat_eqb}
use etherscan.Base.Equality.{Comparable}

abbrev pub Text : Type 0
Text = List ℕ

-- The bytes of a literal (ASCII).
abbrev pub codes : String → Text
codes String.[] = []
codes (String.◌∷◌ c s) = code c ∷ codes s

unfoldable pub text_eqb : Text → Text → Bool
text_eqb [] [] = true
text_eqb (a ∷ s) (b ∷ t) = nat_eqb a b && text_eqb s t
text_eqb _ _ = false

pub text_eqb_iff : (s t : Text) → (text_eqb s t ≡ true) ↔ (s ≡ t)
unfolding text_eqb
text_eqb_iff [] [] = ground arith
text_eqb_iff (a ∷ s) (b ∷ t) = ground (arith, text_eqb_iff s t)
text_eqb_iff [] (b ∷ t) = ground arith
text_eqb_iff (a ∷ s) [] = ground arith

instance abbrev pub text_eq : Comparable Text
text_eq = record { is_same = text_eqb; is_same_iff = text_eqb_iff }

-- s < t
unfoldable pub text_ltb : Text → Text → Bool
text_ltb _ [] = false
text_ltb [] (b ∷ t) = true
text_ltb (a ∷ s) (b ∷ t) = ltb a b || nat_eqb a b && text_ltb s t

-- s >= t
abbrev pub text_geb : Text → Text → Bool
text_geb s t = not (text_ltb s t)

pub text_ltb_irrefl : (s : Text) → text_ltb s s ≡ false
unfolding text_ltb
text_ltb_irrefl [] = refl
text_ltb_irrefl (a ∷ s) = ground (arith, text_ltb_irrefl s)

pub text_ltb_trans :
    (s t u : Text) → text_ltb s t ≡ true → text_ltb t u ≡ true → text_ltb s u ≡ true
unfolding text_ltb
text_ltb_trans [] [] u h k = ground arith
text_ltb_trans (a ∷ s) [] u h k = ground arith
text_ltb_trans s (b ∷ t) [] h k = ground arith
text_ltb_trans [] (b ∷ t) (c ∷ u) h k = refl
text_ltb_trans (a ∷ s) (b ∷ t) (c ∷ u) h k = ground (arith, text_ltb_trans s t u)

-- What lies below `s` lies below all that `s` does not exceed.
pub text_ltb_geb_trans :
    (s t u : Text) → text_ltb s t ≡ true → text_ltb u t ≡ false → text_ltb s u ≡ true
unfolding text_ltb
text_ltb_geb_trans s [] u h k = ground arith
text_ltb_geb_trans s (b ∷ t) [] h k = ground arith
text_ltb_geb_trans [] (b ∷ t) (c ∷ u) h k = refl
text_ltb_geb_trans (a ∷ s) (b ∷ t) (c ∷ u) h k = ground (arith, text_ltb_geb_trans s t u)
