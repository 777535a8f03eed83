-- ===== src/Base/Events.antt =====
-- Runs of a state machine: a sequence of events, each of which happens or cannot.
use mathlib.Core.Path.{◌≡◌, refl, subst}
use mathlib.Core.Bool.{Bool, true, false}
use mathlib.Core.Option.{Option, none, some}
use mathlib.Core.List.{List, [], ◌∷◌}
use mathlib.Core.Logic.{inl, inr}
use native.Mathlib.Omega.{arith}
use etherscan.Base.Tests.{Option-cases}
use etherscan.Base.Tests.{if◌then◌else◌}

-- What holds of the next state, if there is one.
abbrev pub Keeps : {S : Type 0} → (S → Type 0) → Option S → Type 0
Keeps P none = Unit {0}
Keeps P (some s) = P s

pub Keeps-map :
    {S : Type 0} {P : S → Type 0} (Q : S → Type 0) (r : Option S)
    → ((s : S) → P s → Q s)
    → Keeps P r
    → Keeps Q r
Keeps-map Q none f h = tt
Keeps-map Q (some s) f h = f s h

pub Keeps-inversion :
    {S : Type 0} (P : S → Type 0) (r : Option S) → ((s : S) → r ≡ some s → P s) → Keeps P r
Keeps-inversion P none f = tt
Keeps-inversion P (some s) f = f s refl

pub if-Keeps :
    {S : Type 0} (P : S → Type 0) (b : Bool) (r : Option S)
    → (b ≡ true → Keeps P r)
    → Keeps P (if b then r else none)
if-Keeps P true r h = h refl
if-Keeps P false r h = tt

module _ {S Ev : Type 0} (fire : Ev → S → Option S) where
  unfoldable pub run_events : List Ev → S → Option S
  run_events [] s = some s
  run_events (e ∷ es) s = elim (fire e s) [ none ↦ none | some s' ↦ run_events es s' ]

  -- What every event keeps holds after any run.
  pub run_events-Keeps :
      (P : S → Type 0) (es : List Ev) (s t : S)
      → ((e : Ev) (s : S) → P s → Keeps P (fire e s))
      → run_events es s ≡ some t
      → P s
      → P t
  unfolding run_events
  run_events-Keeps P [] s t each run h = let same : s ≡ t = ground (arith, run) in subst P same h
  run_events-Keeps P (e ∷ es) s t each run h = elim (Option-cases (fire e s)) [
    | inl stuck ↦ absurd (ground (arith, run, stuck))
    | inr (s1, fired) ↦
        run_events-Keeps P es s1 t each (ground (arith, run, fired))
          (subst (Keeps P) fired (each e s h))
  ]
