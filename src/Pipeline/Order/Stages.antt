-- ===== src/Pipeline/Order/Stages.antt =====
-- pipeline/: a step of one worker keeps the order of the payloads in the channels.
use mathlib.Core.Path.{subst}
use mathlib.Core.List.{IsPrefix, append_assoc}
use etherscan.Base.{
  ℕ, zero, suc, ◌≡◌, refl, sym, Bool, true, false, ◌&&◌, ◌||◌, Option, none, some, List, [], ◌∷◌,
  if◌then◌else◌,
}
use etherscan.Pipeline.{
  Outcome, failed, dropped, produced, receiving, sending, stopped, Stage, Outlet, mark_as_processed,
  sink_worker, run_stage, receive, behind, send, is_stopped, shut_down,
}
use etherscan.Pipeline.Order.Pending.{
  IsPrefix-append, same_prefix, outputs, ahead, total, total-prefix, total-emit,
}

module _ {P E : Type 0} where
  -- What a receive, a send or a shutdown leaves is `none`, or it keeps to the payloads `ys`.
  abbrev pub KeepsOrder : Option (List (Stage P E) × Outlet P E) → List P → List P → Type 0
  KeepsOrder none ps ys = Unit {0}
  KeepsOrder (some (ss, o)) ps ys = IsPrefix (total ss o ps) ys

  sink_worker-prefix :
      (p : P) (o : Outlet P E) (r : Option E)
      → o.consume p ≡ r
      → o.running ≡ true
      → (ps : List P) → IsPrefix (total [] (sink_worker p o) ps) (total [] o (p ∷ ps))
  unfolding sink_worker mark_as_processed
  sink_worker-prefix p o none fine h ps =
      same_prefix _ _ (rw (fine, sink_worker) (rw h (append_assoc o.consumed (p ∷ []) ps)))
  sink_worker-prefix p o (some e) wrong h ps =
      rw (wrong, sink_worker)
        (subst (λ xs. IsPrefix xs (total [] o (p ∷ ps)))
          (sym (total-emit e [] (record o { running = false }) ps))
          (IsPrefix-append o.consumed [] (if o.running then p ∷ ps else []) (_, refl)))

  run_stage-total :
      (p : P) (f : P → Outcome P E) (ss : List (Stage P E)) (o : Outlet P E) (ps : List P)
      (r : Outcome P E)
      → f p ≡ r
      → (let (s', o') = run_stage p (record { process = f; worker = receiving }) o in
          total (s' ∷ ss) o' ps)
        ≡ total (record { process = f; worker = receiving } ∷ ss) o (p ∷ ps)
  unfolding run_stage mark_as_processed
  run_stage-total p f ss o ps (failed e) h =
      rw (h, run_stage) (total-emit e (record { process = f; worker = stopped } ∷ ss) o ps)
  run_stage-total p f ss o ps dropped h = rw (h, run_stage) refl
  run_stage-total p f ss o ps (produced q) h = rw (h, run_stage) refl

  if-KeepsOrder :
      (b : Bool) (r : Option (List (Stage P E) × Outlet P E)) (ps ys : List P)
      → (b ≡ true → KeepsOrder r ps ys)
      → KeepsOrder (if b then r else none) ps ys
  if-KeepsOrder true r ps ys h = h refl
  if-KeepsOrder false r ps ys h = tt

  pub receive-KeepsOrder :
      (p : P) (ss : List (Stage P E)) (o : Outlet P E) (ps : List P)
      → KeepsOrder (receive p ss o) ps (total ss o (p ∷ ps))
  unfolding receive
  receive-KeepsOrder p [] o ps =
      if-KeepsOrder o.running (some ([], sink_worker p o)) ps (total [] o (p ∷ ps))
        (λ up. sink_worker-prefix p o (o.consume p) refl up ps)
  receive-KeepsOrder p (s ∷ ss) o ps =
      elim (s.worker)
        as (λ w.
          KeepsOrder (receive p (record s { worker = w } ∷ ss) o) ps
            (total (record s { worker = w } ∷ ss) o (p ∷ ps))) [
              | receiving ↦ same_prefix _ _ (run_stage-total p s.process ss o ps (s.process p) refl)
              | sending q ↦ tt
              | stopped ↦ tt
            ]

  behind-KeepsOrder :
      (s : Stage P E) (r : Option (List (Stage P E) × Outlet P E)) (ps ys : List P)
      → KeepsOrder r (ahead s.process s.worker ps) ys
      → KeepsOrder (behind s r) ps ys
  behind-KeepsOrder s none ps ys h = tt
  behind-KeepsOrder s (some (ss, o)) ps ys h = h

  pub send-KeepsOrder :
      (i : ℕ) (ss : List (Stage P E)) (o : Outlet P E) (ps : List P)
      → KeepsOrder (send i ss o) ps (total ss o ps)
  unfolding send
  send-KeepsOrder i [] o ps = tt
  send-KeepsOrder zero (s ∷ ss) o ps =
      elim (s.worker)
        as (λ w.
          KeepsOrder (send zero (record s { worker = w } ∷ ss) o) ps
            (total (record s { worker = w } ∷ ss) o ps)) [
              | receiving ↦ tt
              | sending p ↦
                  behind-KeepsOrder (record s { worker = receiving }) (receive p ss o) ps _
                    (receive-KeepsOrder p ss o (outputs s.process ps))
              | stopped ↦ tt
            ]
  send-KeepsOrder (suc i) (s ∷ ss) o ps =
      behind-KeepsOrder s (send i ss o) ps _ (send-KeepsOrder i ss o (ahead s.process s.worker ps))

  total_stopped :
      (ss : List (Stage P E)) (o : Outlet P E) (ps : List P)
      → IsPrefix (total ss o []) (total ss o ps)
  total_stopped ss o ps = total-prefix ss o [] ps (ps, refl)

  pub shut_down-KeepsOrder :
      (done closed : Bool) (i : ℕ) (ss : List (Stage P E)) (o : Outlet P E) (ps : List P)
      → KeepsOrder (shut_down done closed i ss o) ps (total ss o ps)
  unfolding shut_down
  shut_down-KeepsOrder done closed i [] o ps =
      if-KeepsOrder (o.running && (done || closed)) (some ([], record o { running = false })) ps
        (total [] o ps)
        (λ _. IsPrefix-append o.consumed [] (if o.running then ps else []) (_, refl))
  shut_down-KeepsOrder done closed zero (s ∷ ss) o ps =
      elim (s.worker)
        as (λ w.
          KeepsOrder (shut_down done closed zero (record s { worker = w } ∷ ss) o) ps
            (total (record s { worker = w } ∷ ss) o ps)) [
              | receiving ↦
                  if-KeepsOrder (done || closed) (some (record s { worker = stopped } ∷ ss, o)) ps
                    (total ss o (outputs s.process ps))
                    (λ _. total_stopped ss o (outputs s.process ps))
              | sending p ↦
                  if-KeepsOrder done (some (record s { worker = stopped } ∷ ss, o)) ps
                    (total ss o (p ∷ outputs s.process ps))
                    (λ _. total_stopped ss o (p ∷ outputs s.process ps))
              | stopped ↦ tt
            ]
  shut_down-KeepsOrder done closed (suc i) (s ∷ ss) o ps =
      behind-KeepsOrder s (shut_down done (is_stopped s.worker) i ss o) ps _
        (shut_down-KeepsOrder done (is_stopped s.worker) i ss o (ahead s.process s.worker ps))
