-- ===== src/Base/Sums.antt =====
-- Sums over a list do not depend on its order.
use mathlib.Core.Path.{◌≡◌, refl, sym, ap, ap₂, ◌∙◌}
use mathlib.Core.Bool.{true, not, ◌&&◌}
use mathlib.Core.Logic.{inl, inr}
use mathlib.Core.List.{List, [], ◌∷◌}
use native.Mathlib.Omega.{arith}
use etherscan.Base.Lists.{All}
use etherscan.Base.Tests.{if◌then◌else◌, Bool-cases}
use etherscan.Base.Equality.{Comparable, ◌==◌, ==_iff, ==_refl}
use etherscan.Base.Member.{member, Distinct, member_head_once}

module _ {A : Type 0} ⦃e : Comparable A⦄ where
  abbrev pub remove : A → List A → List A
  remove x [] = []
  remove x (y ∷ ys) = if y == x then ys else y ∷ remove x ys

  pub member-remove :
      (a x : A) (ys : List A) → Distinct ys → member a (remove x ys) ≡ (member a ys && not (x == a))
  unfolding member
  member-remove a x [] d = refl
  member-remove a x (y ∷ ys) d = ground (
    arith,
    member-remove a x ys d.1,
    ==_iff y x,
    ==_iff y a,
    ==_iff x a,
    member_head_once a y ys d.0,
  )

  pub remove-Distinct : (x : A) (ys : List A) → Distinct ys → Distinct (remove x ys)
  remove-Distinct x [] d = tt
  remove-Distinct x (y ∷ ys) d = ground (arith, remove-Distinct x ys d.1, member-remove y x ys d.1)

  module _ {N : Type 0} (op : N → N → N) (unit : N) where
    abbrev pub sum_of : (A → N) → List A → N
    sum_of f [] = unit
    sum_of f (x ∷ xs) = op (f x) (sum_of f xs)

    -- The sum sees the values at the elements only.
    pub sum_of_ext :
        (f g : A → N) (xs : List A) → All (λ x. f x ≡ g x) xs → sum_of f xs ≡ sum_of g xs
    sum_of_ext f g [] all = refl
    sum_of_ext f g (x ∷ xs) (here, all) = ap₂ op here (sum_of_ext f g xs all)

    module _ (swap : (a b c : N) → op a (op b c) ≡ op b (op a c)) where
      sum_of-remove :
          (f : A → N) (x : A) (ys : List A)
          → member x ys ≡ true
          → sum_of f ys ≡ op (f x) (sum_of f (remove x ys))
      unfolding member
      sum_of-remove f x [] h = ground arith
      sum_of-remove f x (y ∷ ys) h = elim (Bool-cases (y == x)) [
        | inl here ↦ rw here (ap (λ z. op (f z) (sum_of f ys)) ((==_iff y x).0 here))
        | inr later ↦ rw later (
            ap (op (f y)) (sum_of-remove f x ys (rw later at h))
            ∙ swap (f y) (f x) (sum_of f (remove x ys)))
      ]

      -- Two lists without repetitions and with the same elements have the same sum.
      pub sum_of_same :
          (f : A → N) (xs ys : List A)
          → Distinct xs
          → Distinct ys
          → ((a : A) → member a xs ≡ member a ys)
          → sum_of f xs ≡ sum_of f ys
      unfolding member
      sum_of_same f [] [] d d' h = refl
      sum_of_same f [] (y ∷ ys) d d' h = ground (arith, h y, ==_refl y)
      sum_of_same f (x ∷ xs) ys d d' h =
          ap (op (f x)) (
            sum_of_same f xs (remove x ys) d.1 (remove-Distinct x ys d') (λ a.
              ground
                (arith, member-remove a x ys d', h a, ==_iff x a, member_head_once a x xs d.0)))
          ∙ sym (sum_of-remove f x ys (ground (arith, h x, ==_refl x)))
