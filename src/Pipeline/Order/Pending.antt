-- ===== src/Pipeline/Order/Pending.antt =====
-- pipeline/: the payloads that a pipeline still has, as the sink will get them.
use mathlib.Core.Path.{subst}
use mathlib.Core.List.{IsPrefix, append_assoc, append-nil}
use etherscan.Base.{
  ◌≡◌, refl, sym, ap, ◌∙◌, Bool, true, false, Option, none, some, List, [], ◌∷◌, ◌++◌,
  if◌then◌else◌, length, ltb,
}
use etherscan.Pipeline.{
  Outcome, failed, dropped, produced, Worker, receiving, sending, stopped, Stage, Outlet,
  maybe_emit_error, emit_option,
}

module _ {P : Type 0} where
  pub IsPrefix-append : (xs ys zs : List P) → IsPrefix ys zs → IsPrefix (xs ++ ys) (xs ++ zs)
  IsPrefix-append xs ys zs (u, p) = (u, append_assoc xs ys u ∙ ap (λ r. xs ++ r) p)

  pub trans_prefix : (xs ys zs : List P) → IsPrefix xs ys → IsPrefix ys zs → IsPrefix xs zs
  trans_prefix xs ys zs (u, p) (v, q) = (u ++ v, sym (append_assoc xs u v) ∙ ap (λ r. r ++ v) p ∙ q)

  pub same_prefix : (xs ys : List P) → xs ≡ ys → IsPrefix xs ys
  same_prefix xs ys e = ([], append-nil xs ∙ e)

  pub guard_prefix :
      (b : Bool) (xs ys : List P)
      → IsPrefix xs ys
      → IsPrefix (if b then xs else []) (if b then ys else [])
  guard_prefix true xs ys h = h
  guard_prefix false xs ys h = ([], refl)

module _ {P E : Type 0} where
  -- What a stage makes of payloads, up to the first one that it fails on, and what all stages make.
  abbrev pub outputs_with : Outcome P E → List P → List P
  outputs_with (failed e) ys = []
  outputs_with dropped ys = ys
  outputs_with (produced q) ys = q ∷ ys

  abbrev pub outputs : (P → Outcome P E) → List P → List P
  outputs f [] = []
  outputs f (p ∷ ps) = outputs_with (f p) (outputs f ps)

  abbrev pub through : List (P → Outcome P E) → List P → List P
  through [] ps = ps
  through (f ∷ fs) ps = through fs (outputs f ps)

  -- What comes out of a stage that has a worker there and will get the payloads `ps`.
  abbrev pub ahead : (P → Outcome P E) → Worker P → List P → List P
  ahead f receiving ps = outputs f ps
  ahead f (sending q) ps = q ∷ outputs f ps
  ahead f stopped ps = []

  abbrev pub pending : List (Stage P E) → List P → List P
  pending [] ps = ps
  pending (s ∷ ss) ps = pending ss (ahead s.process s.worker ps)

  -- What the sink has taken and can still get.
  abbrev pub total : List (Stage P E) → Outlet P E → List P → List P
  total ss o ps = o.consumed ++ (if o.running then pending ss ps else [])

  pub outputs_with-prefix :
      (r : Outcome P E) (xs ys : List P)
      → IsPrefix xs ys
      → IsPrefix (outputs_with r xs) (outputs_with r ys)
  outputs_with-prefix (failed e) xs ys h = ([], refl)
  outputs_with-prefix dropped xs ys h = h
  outputs_with-prefix (produced q) xs ys h = IsPrefix-append (q ∷ []) xs ys h

  pub outputs-prefix :
      (f : P → Outcome P E) (xs ys : List P)
      → IsPrefix xs ys
      → IsPrefix (outputs f xs) (outputs f ys)
  outputs-prefix f [] ys h = (outputs f ys, refl)
  outputs-prefix f (x ∷ xs) ys (u, p) =
      subst (λ zs. IsPrefix (outputs f (x ∷ xs)) (outputs f zs)) p
        (outputs_with-prefix (f x) (outputs f xs) (outputs f (xs ++ u))
          (outputs-prefix f xs (xs ++ u) (u, refl)))

  pub ahead-prefix :
      (f : P → Outcome P E) (w : Worker P) (xs ys : List P)
      → IsPrefix xs ys
      → IsPrefix (ahead f w xs) (ahead f w ys)
  ahead-prefix f receiving xs ys h = outputs-prefix f xs ys h
  ahead-prefix f (sending q) xs ys h =
      IsPrefix-append (q ∷ []) (outputs f xs) (outputs f ys) (outputs-prefix f xs ys h)
  ahead-prefix f stopped xs ys h = ([], refl)

  pub pending-prefix :
      (ss : List (Stage P E)) (xs ys : List P)
      → IsPrefix xs ys
      → IsPrefix (pending ss xs) (pending ss ys)
  pending-prefix [] xs ys h = h
  pending-prefix (s ∷ ss) xs ys h =
      pending-prefix ss (ahead s.process s.worker xs) (ahead s.process s.worker ys)
        (ahead-prefix s.process s.worker xs ys h)

  pub total-prefix :
      (ss : List (Stage P E)) (o : Outlet P E) (xs ys : List P)
      → IsPrefix xs ys
      → IsPrefix (total ss o xs) (total ss o ys)
  total-prefix ss o xs ys h =
      IsPrefix-append o.consumed (if o.running then pending ss xs else [])
        (if o.running then pending ss ys else [])
        (guard_prefix o.running (pending ss xs) (pending ss ys) (pending-prefix ss xs ys h))

  pub total-emit :
      (e : E) (ss : List (Stage P E)) (o : Outlet P E) (ps : List P)
      → total ss (maybe_emit_error e o) ps ≡ total ss o ps
  unfolding maybe_emit_error
  total-emit e ss o ps =
      elim (ltb (length o.err_ch) o.err_capacity)
        as (λ b.
          total ss (if b then record o { err_ch = o.err_ch ++ e ∷ [] } else o) ps ≡ total ss o ps) [
            | true ↦ refl
            | false ↦ refl
          ]

  pub total-emit_option :
      (e : Option E) (ss : List (Stage P E)) (o : Outlet P E) (ps : List P)
      → total ss (emit_option e o) ps ≡ total ss o ps
  unfolding emit_option
  total-emit_option none ss o ps = refl
  total-emit_option (some e) ss o ps = total-emit e ss o ps
