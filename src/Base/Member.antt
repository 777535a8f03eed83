-- ===== src/Base/Member.antt =====
-- Membership as a test, and lists without repetitions.
use mathlib.Core.Bool.{Bool, true, false, ◌||◌}
use mathlib.Core.List.{List, [], ◌∷◌}
use mathlib.Core.Path.{◌≡◌, refl, subst}
use native.Mathlib.Omega.{arith}
use etherscan.Base.Tests.{if◌then◌else◌}
use etherscan.Base.Lists.{All}
use etherscan.Base.Map.{Map, keys, has_key, lookup, insert, has_key-insert}
use mathlib.Core.Option.{some}
use etherscan.Base.Equality.{==_refl, Comparable, ◌==◌, ==_iff, ==_comm}

module _ {ℓ} {A : Type ℓ} ⦃e : Comparable A⦄ where
  unfoldable pub member : A → List A → Bool
  member a [] = false
  member a (x ∷ xs) = x == a || member a xs

  abbrev pub Distinct : List A → Type 0
  Distinct [] = Unit
  Distinct (x ∷ xs) = (member x xs ≡ false) × Distinct xs

  pub member-cons_false :
      (a x : A) (xs : List A)
      → member a (x ∷ xs) ≡ false
      → ((a == x) ≡ false) × (member a xs ≡ false)
  unfolding member
  member-cons_false a x xs h = ground (arith, ==_comm a x)

  -- An element that a list without repetitions starts with is not met again.
  pub member_head_once :
      (a x : A) (xs : List A) → member x xs ≡ false → (x == a) ≡ true → member a xs ≡ false
  member_head_once a x xs h e = subst (λ y. member y xs ≡ false) ((==_iff x a).0 e) h

  pub member-cons_self : (x : A) (xs : List A) → member x (x ∷ xs) ≡ true
  unfolding member
  member-cons_self x xs = ground (arith, ==_refl x)

  pub member-cons_tail : (a x : A) (xs : List A) → member a xs ≡ true → member a (x ∷ xs) ≡ true
  unfolding member
  member-cons_tail a x xs h = ground arith

  pub All-of_members {κ} :
      (P : A → Type κ) (xs : List A) → ((a : A) → member a xs ≡ true → P a) → All P xs
  All-of_members P [] h = tt
  All-of_members P (x ∷ xs) h =
      (h x (member-cons_self x xs), All-of_members P xs (λ a m. h a (member-cons_tail a x xs m)))

module _ {A : Type 0} ⦃e : Comparable A⦄ where
  -- The list without its repetitions.
  abbrev pub once : List A → List A
  once [] = []
  once (x ∷ xs) = if member x xs then once xs else x ∷ once xs

  pub member-once : (a : A) (xs : List A) → member a (once xs) ≡ member a xs
  unfolding member
  member-once a [] = refl
  member-once a (x ∷ xs) = ground (arith, ==_iff x a, member-once a xs)

  pub once-Distinct : (xs : List A) → Distinct (once xs)
  once-Distinct [] = tt
  once-Distinct (x ∷ xs) = ground (arith, once-Distinct xs, member-once x xs)

module _ {K V : Type 0} ⦃e : Comparable K⦄ where
  pub member-keys : (k : K) (m : Map K V) → member k (keys m) ≡ has_key k m
  unfolding member keys has_key lookup
  member-keys k [] = refl
  member-keys k ((j, v) ∷ m) = ground (arith, member-keys k m)

  pub keys-insert-Distinct :
      (k : K) (v : V) (m : Map K V) → Distinct (keys m) → Distinct (keys (insert k v m))
  unfolding keys insert member
  keys-insert-Distinct k v [] d = (refl, tt)
  keys-insert-Distinct k v ((j, w) ∷ m) d = ground (
    arith,
    keys-insert-Distinct k v m,
    member-keys j (insert k v m),
    member-keys j m,
    has_key-insert k j v m,
    ==_iff j k,
    ==_iff k j,
  )

  lookup-head : (j : K) (w : V) (m : Map K V) → lookup j ((j, w) ∷ m) ≡ some w
  unfolding lookup
  lookup-head j w m = ground (arith, ==_refl j)

  lookup-tail :
      (k j : K) (w v : V) (m : Map K V)
      → Distinct (keys ((j, w) ∷ m))
      → lookup k m ≡ some v
      → lookup k ((j, w) ∷ m) ≡ some v
  unfolding lookup keys has_key
  lookup-tail k j w v m d at_k = ground (arith, ==_iff j k, member-keys k m)

  -- What holds of all that is found holds of all entries, if no key is there twice.
  pub All-of_lookups {κ} :
      (P : K → V → Type κ) (m : Map K V)
      → Distinct (keys m)
      → ((k : K) (v : V) → lookup k m ≡ some v → P k v)
      → All (λ e. P e.0 e.1) m
  unfolding keys
  All-of_lookups P [] d h = tt
  All-of_lookups P ((j, w) ∷ m) d h = (
    h j w (lookup-head j w m),
    All-of_lookups P m d.1 (λ k v at_k. h k v (lookup-tail k j w v m d at_k)),
  )
