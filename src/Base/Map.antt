-- ===== src/Base/Map.antt =====
-- Go's maps, as association lists in insertion order. Go leaves the order of iteration open: what
-- iterates over a map is stated for every order, or up to order.
use Prim.Native.Nat.{suc}
use mathlib.Core.Path.{ap, ◌≡◌, refl}
use mathlib.Core.Bool.{Bool, true, false, ◌||◌}
use mathlib.Core.Option
use mathlib.Core.Option.{Option, none, some}
use mathlib.Core.List.{List, [], ◌∷◌}
use native.Mathlib.Omega.{arith}
use etherscan.Base.Tests.{if◌then◌else◌}
use etherscan.Base.Lists.{length}
use etherscan.Base.Equality.{Comparable, ◌==◌, ==_iff}

abbrev pub Map {ℓ κ} : Type ℓ → Type κ → Type (ℓ ⊔ κ)
Map K V = List (K × V)

module _ {ℓ κ} {K : Type ℓ} {V : Type κ} where
  -- The keys, in the order of the list.
  unfoldable pub keys : Map K V → List K
  keys [] = []
  keys ((k, v) ∷ m) = k ∷ keys m

  unfoldable pub values : Map K V → List V
  values [] = []
  values ((k, v) ∷ m) = v ∷ values m

module _ {ℓ κ} {K : Type ℓ} {V : Type κ} ⦃e : Comparable K⦄ where
  -- m[k]
  unfoldable pub lookup : K → Map K V → Option V
  lookup key [] = none
  lookup key ((k, v) ∷ rest) = if k == key then some v else lookup key rest

  -- m[k] = v
  unfoldable pub insert : K → V → Map K V → Map K V
  insert key new [] = (key, new) ∷ []
  insert key new ((k, v) ∷ rest) =
      if k == key then (k, new) ∷ rest else (k, v) ∷ insert key new rest

  -- A change through the pointer that m[k] holds; nothing if there is none.
  unfoldable pub alter : K → (V → V) → Map K V → Map K V
  alter k f [] = []
  alter k f ((j, v) ∷ m) = if j == k then (j, f v) ∷ m else (j, v) ∷ alter k f m

  unfoldable pub has_key : K → Map K V → Bool
  has_key k m = elim (lookup k m) [ none ↦ false | some _ ↦ true ]

  pub lookup-insert :
      (k j : K) (v : V) (m : Map K V)
      → lookup j (insert k v m) ≡ (if k == j then some v else lookup j m)
  unfolding lookup insert
  lookup-insert k j v [] = refl
  lookup-insert k j v ((i, old) ∷ rest) =
      ground (arith, lookup-insert k j v rest, ==_iff i j, ==_iff i k, ==_iff k j)

  pub has_key-insert :
      (k j : K) (v : V) (m : Map K V) → has_key j (insert k v m) ≡ (k == j || has_key j m)
  unfolding has_key
  has_key-insert k j v m = ground (arith, lookup-insert k j v m)

  pub lookup-alter :
      (k j : K) (f : V → V) (m : Map K V)
      → lookup j (alter k f m) ≡ (if k == j then Option.map f (lookup j m) else lookup j m)
  unfolding lookup alter
  lookup-alter k j f [] = ground arith
  lookup-alter k j f ((i, w) ∷ m) =
      ground (arith, ==_iff k j, ==_iff i k, ==_iff i j, lookup-alter k j f m)

  pub keys-alter : (k : K) (f : V → V) (m : Map K V) → keys (alter k f m) ≡ keys m
  unfolding keys alter
  keys-alter k f [] = refl
  keys-alter k f ((i, w) ∷ m) = ground (arith, keys-alter k f m)

  pub length-alter : (k : K) (f : V → V) (m : Map K V) → length (alter k f m) ≡ length m
  unfolding alter
  length-alter k f [] = refl
  length-alter k f ((i, w) ∷ m) = ground (arith, length-alter k f m)

  pub has_key-alter : (k j : K) (f : V → V) (m : Map K V) → has_key j (alter k f m) ≡ has_key j m
  unfolding has_key
  has_key-alter k j f m = ground (arith, lookup-alter k j f m)

  pub has_key_same :
      (k : K) (m m' : Map K V) → lookup k m' ≡ lookup k m → has_key k m' ≡ has_key k m
  unfolding has_key
  has_key_same k m m' h = ground arith

  pub has_key-lookup : (k : K) (m : Map K V) → has_key k m ≡ true → (v : V) × (lookup k m ≡ some v)
  unfolding has_key
  has_key-lookup k m h = ground arith

module _ {ℓ κ} {K : Type ℓ} {V : Type κ} where
  pub length-keys : (m : Map K V) → length (keys m) ≡ length m
  unfolding keys
  length-keys [] = refl
  length-keys ((k, v) ∷ m) = ap suc (length-keys m)

  -- Maps with the same keys have the same size.
  pub length_of_keys : (m m' : Map K V) → keys m' ≡ keys m → length m' ≡ length m
  length_of_keys m m' h = omega (arith, length-keys m, length-keys m', ap (length {A = K}) h)
