-- ===== src/Base/Options.antt =====
-- Maps over an optional value.
use mathlib.Core.Path.{◌≡◌, refl, ap}
use mathlib.Core.Option
use mathlib.Core.Option.{Option, none, some}

module _ {ℓ} {A : Type ℓ} where
  pub map_self : (f : A → A) → ((a : A) → f a ≡ a) → (o : Option A) → Option.map f o ≡ o
  map_self f h none = refl
  map_self f h (some a) = ap some (h a)

module _ {ℓ κ} {A : Type ℓ} {B : Type κ} where
  pub map_ext :
      (f g : A → B) → ((a : A) → f a ≡ g a) → (o : Option A) → Option.map f o ≡ Option.map g o
  map_ext f g h none = refl
  map_ext f g h (some a) = ap some (h a)
