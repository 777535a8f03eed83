-- ===== src/Pipeline/Order.antt =====
-- pipeline/: in whatever order the workers of a pipeline take their turns, and whatever fails, the sink
-- takes the payloads in the order of the source.
pub mod Pending
pub mod Stages
use mathlib.Core.Path.{subst}
use mathlib.Core.List.{IsPrefix, append_assoc, append-nil}
use etherscan.Base.{
  ℕ, zero, suc, ◌≡◌, refl, sym, ap, ◌∙◌, Bool, true, false, ◌&&◌, ◌||◌, not, Option, none, some,
  List, [], ◌∷◌, ◌++◌, arith, Option-cases, Bool-cases, inl, inr, if◌then◌else◌, length, ltb, ◌⊎◌,
}
use etherscan.Pipeline.{
  Outcome, failed, dropped, produced, Worker, receiving, sending, stopped, Stage, Outlet, Pipeline,
  Event, feed, pass_on, stop, stop_source, collect, expire, maybe_emit_error, mark_as_processed,
  sink_worker, run_stage, receive, behind, send, is_stopped, shut_down, with_stages, source_worker,
  emit_option, source_stop, collect_error, fire, fire_all, new_stages, start,
}
use etherscan.Pipeline.Order.Pending.{
  IsPrefix-append, trans_prefix, same_prefix, guard_prefix, outputs_with, outputs, through, ahead,
  pending, total, outputs_with-prefix, outputs-prefix, ahead-prefix, pending-prefix, total-prefix,
  total-emit, total-emit_option,
}
use etherscan.Base.Events.{Keeps, if-Keeps, Keeps-map, run_events-Keeps}
use etherscan.Pipeline.Order.Stages.{
  KeepsOrder, receive-KeepsOrder, send-KeepsOrder, shut_down-KeepsOrder,
}

module _ {P E : Type 0} where
  -- The same of a whole pipeline.
  abbrev pub remaining : Pipeline P E → List P
  remaining l = total l.stages l.outlet l.source

  abbrev KeepsAll : Option (Pipeline P E) → List P → Type 0
  KeepsAll r ys = Keeps (λ l. IsPrefix (remaining l) ys) r

  with_stages-Keeps :
      (l : Pipeline P E) (r : Option (List (Stage P E) × Outlet P E)) (ys : List P)
      → KeepsOrder r l.source ys
      → KeepsAll (with_stages l r) ys
  with_stages-Keeps l none ys h = tt
  with_stages-Keeps l (some (ss, o)) ys h = h

  source_worker-Keeps :
      (ps : List P) (l : Pipeline P E) → KeepsAll (source_worker ps l) (total l.stages l.outlet ps)
  unfolding source_worker
  source_worker-Keeps [] l = tt
  source_worker-Keeps (p ∷ ps) l =
      if-Keeps (λ l'. IsPrefix (remaining l') (total l.stages l.outlet (p ∷ ps))) l.source_running _
        λ _.
          with_stages-Keeps (record l { source = ps }) (receive p l.stages l.outlet) _
            (receive-KeepsOrder p l.stages l.outlet ps)

  source_stop-Keeps : (ps : List P) (l : Pipeline P E) → KeepsAll (source_stop ps l) (remaining l)
  unfolding source_stop
  source_stop-Keeps [] l =
      if-Keeps (λ l'. IsPrefix (remaining l') (remaining l)) l.source_running _
        λ _. (same_prefix _ _ (total-emit_option l.source_error l.stages l.outlet l.source))
  source_stop-Keeps (p ∷ ps) l =
      if-Keeps (λ l'. IsPrefix (remaining l') (remaining l)) (l.source_running && l.cancelled) _
        λ _. (same_prefix _ _ refl)

  collect_error-Keeps :
      (es : List E) (l : Pipeline P E) → KeepsAll (collect_error es l) (remaining l)
  unfolding collect_error
  collect_error-Keeps [] l = tt
  collect_error-Keeps (e ∷ es) l = same_prefix (remaining l) (remaining l) refl

  fire-Keeps : (e : Event) (l : Pipeline P E) → KeepsAll (fire e l) (remaining l)
  unfolding fire
  fire-Keeps feed l = source_worker-Keeps l.source l
  fire-Keeps (pass_on i) l =
      with_stages-Keeps l (send i l.stages l.outlet) (remaining l)
        (send-KeepsOrder i l.stages l.outlet l.source)
  fire-Keeps (stop i) l =
      with_stages-Keeps l (shut_down l.cancelled (not l.source_running) i l.stages l.outlet)
        (remaining l)
        (shut_down-KeepsOrder l.cancelled (not l.source_running) i l.stages l.outlet l.source)
  fire-Keeps stop_source l = source_stop-Keeps l.source l
  fire-Keeps collect l = collect_error-Keeps l.outlet.err_ch l
  fire-Keeps expire l = same_prefix (remaining l) (remaining l) refl

  fire_all-prefix :
      (es : List Event) (l l' : Pipeline P E)
      → fire_all es l ≡ some l'
      → IsPrefix (remaining l') (remaining l)
  unfolding fire_all
  fire_all-prefix es l l' h =
      run_events-Keeps fire (λ x. IsPrefix (remaining x) (remaining l)) es l l'
        (λ e x before.
          Keeps-map _ (fire e x)
            (λ y step. trans_prefix (remaining y) (remaining x) (remaining l) step before)
            (fire-Keeps e x))
        h (same_prefix (remaining l) (remaining l) refl)

  pending-new :
      (fs : List (P → Outcome P E)) (ps : List P) → pending (new_stages fs) ps ≡ through fs ps
  pending-new [] ps = refl
  pending-new (f ∷ fs) ps = pending-new fs (outputs f ps)

-- However the workers of a pipeline take turns, and whichever of them fail or are cancelled, what the
-- sink has taken at any time is the beginning of what the stages, one after the other, make of the
-- payloads of the source, each up to the first payload that it fails on.
pub fire_all_in_order :
    {P E : Type 0} (fs : List (P → Outcome P E)) (consume : P → Option E) (source : List P)
    (source_error : Option E) (es : List Event) (l : Pipeline P E)
    → fire_all es (start fs consume source source_error) ≡ some l
    → IsPrefix l.outlet.consumed (through fs source)
unfolding start
fire_all_in_order fs consume source source_error es l h =
    trans_prefix l.outlet.consumed (remaining l) (through fs source) (_, refl)
      (subst (λ xs. IsPrefix (remaining l) xs) (pending-new fs source)
        (fire_all-prefix es (start fs consume source source_error) l h))
