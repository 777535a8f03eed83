-- ===== src/Base/Lookups.antt =====
-- What holds of all that is found in a map, through insert and alter.
use mathlib.Core.Path.{◌≡◌, sym, ◌∙◌, subst}
use mathlib.Core.Option.{some}
use mathlib.Core.Logic.{inl, inr}
use native.Mathlib.Omega.{arith}
use etherscan.Base.Tests.{Bool-cases, Option-cases}
use etherscan.Base.Equality.{Comparable, ◌==◌, ==_iff}
use etherscan.Base.Map.{Map, lookup, insert, alter, lookup-insert, lookup-alter}

module _ {K V : Type 0} ⦃e : Comparable K⦄ (P : K → V → Type 0) where
  abbrev pub AllFound : Map K V → Type 0
  AllFound m = (k : K) (v : V) → lookup k m ≡ some v → P k v

  pub insert-AllFound :
      (a : K) (new : V) (m : Map K V) → P a new → AllFound m → AllFound (insert a new m)
  insert-AllFound a new m here all k v at_k =
      let found = sym (lookup-insert a k new m) ∙ at_k in
      elim (Bool-cases (a == k)) [
        | inl same ↦
            subst (λ w. P k w) (ground (arith, found, same))
              (subst (λ j. P j new) ((==_iff a k).0 same) here)
        | inr other ↦ all k v (ground (arith, found, other))
      ]

  pub alter-AllFound :
      (a : K) (f : V → V) (m : Map K V)
      → ((v : V) → P a v → P a (f v))
      → AllFound m
      → AllFound (alter a f m)
  alter-AllFound a f m keeps all k v at_k =
      let found = sym (lookup-alter a k f m) ∙ at_k in
      elim (Bool-cases (a == k)) [
        | inl same ↦ elim (Option-cases (lookup k m)) [
          | inl absent ↦ absurd (ground (arith, found, same, absent))
          | inr (w, present) ↦
              subst (λ w. P k w) (ground (arith, found, same, present))
                (subst (λ j. P j (f w)) ((==_iff a k).0 same)
                  (keeps w (
                    all a w
                      (subst (λ j. lookup j m ≡ some w) (sym ((==_iff a k).0 same)) present))))
        ]
        | inr other ↦ all k v (ground (arith, found, other))
      ]
