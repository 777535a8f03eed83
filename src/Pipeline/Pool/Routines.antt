-- ===== src/Pipeline/Pool/Routines.antt =====
-- pipeline/stage.go: what the routines of a pool of workers do to its tokens and payloads.
use mathlib.Core.Path.{subst}
use etherscan.Base.{
  ℕ, suc, ◌+◌, ◌≡◌, refl, sym, ap, ◌∙◌, Option, none, some, true, false, List, length, ltb, arith,
  Option-cases, inl, inr, if◌then◌else◌, ◌++◌, ◌∷◌, [],
}
use etherscan.Base.Events.{Keeps, if-Keeps}
use etherscan.Pipeline.{Outcome, failed, dropped, produced}
use etherscan.Pipeline.Pool.{
  Routine, processing, sending, Pool, pick, maybe_emit_error, run_process, send_output, give_up,
  collect_error,
}
use etherscan.Pipeline.Pool.Places.{IsBalanced}
use etherscan.Pipeline.Pool.Weights.{
  Weights, weigh, of_routine, of_outcome, of_payload, length-pick, weigh-pick,
}

module _ {P E : Type 0} (weights : Weights P E) (proc : P → Outcome P E) (n total : ℕ) where
  -- The channel of errors does not matter.
  emit-IsBalanced :
      (e : E) (p : Pool P E)
      → IsBalanced weights proc n total p
      → IsBalanced weights proc n total (maybe_emit_error e p)
  unfolding maybe_emit_error
  emit-IsBalanced e p v =
      elim (ltb (length p.err_ch) p.err_capacity)
        as (λ b.
          IsBalanced weights proc n total
            (if b then record p { err_ch = p.err_ch ++ e ∷ [] } else p)) [
              | true ↦ record {
                same_proc = v.same_proc;
                limit = v.limit;
                balance = v.balance;
                payloads = v.payloads;
                in_range = v.in_range;
              }
              | false ↦ v
            ]

  -- The routine is one of those of the pool, and the others are the rest.
  pub record IsPicked (p : Pool P E) (r : Routine P) (rs : List (Routine P)) : Type 0 where
    pub size : length p.routines ≡ suc (length rs)
    pub weight :
        weigh (of_routine weights proc) p.routines
        ≡ of_routine weights proc r + weigh (of_routine weights proc) rs

  module _ (p : Pool P E) (v : IsBalanced weights proc n total p) where
    -- A routine that leaves gives its token back.
    process-Keeps :
        (x : P) (rs : List (Routine P)) (r : Outcome P E)
        → p.proc x ≡ r
        → IsPicked p (processing x) rs
        → Keeps (IsBalanced weights proc n total) (run_process (some (processing x, rs)) p)
    unfolding run_process
    process-Keeps x rs (failed e) h here =
        let outcome : of_payload weights proc x ≡ weights.of_failure e =
          ap (λ o. of_outcome weights proc o x) (ap (λ f. f x) (sym v.same_proc) ∙ h) in
        rw (h, run_process)
          (emit-IsBalanced e _ (record {
            same_proc = v.same_proc;
            limit = v.limit;
            balance = omega (arith, v.balance, here.size);
            payloads = omega (arith, v.payloads, here.weight, outcome);
            in_range = v.in_range;
          }))
    process-Keeps x rs dropped h here =
        let outcome : of_payload weights proc x ≡ weights.of_processed x =
          ap (λ o. of_outcome weights proc o x) (ap (λ f. f x) (sym v.same_proc) ∙ h) in
        rw (h, run_process)
          (record {
            same_proc = v.same_proc;
            limit = v.limit;
            balance = omega (arith, v.balance, here.size);
            payloads = omega (arith, v.payloads, here.weight, outcome);
            in_range = v.in_range;
          })
    process-Keeps x rs (produced y) h here =
        let outcome : of_payload weights proc x ≡ weights.of_output y =
          ap (λ o. of_outcome weights proc o x) (ap (λ f. f x) (sym v.same_proc) ∙ h) in
        rw (h, run_process)
          (record {
            same_proc = v.same_proc;
            limit = v.limit;
            balance = omega (arith, v.balance, here.size);
            payloads = omega (arith, v.payloads, here.weight, outcome);
            in_range = v.in_range;
          })

    pub picked-Keeps :
        (f : Option (Routine P × List (Routine P)) → Pool P E → Option (Pool P E)) (i : ℕ)
        → Keeps (IsBalanced weights proc n total) (f none p)
        → ((r : Routine P) (rs : List (Routine P))
            → IsPicked p r rs
            → Keeps (IsBalanced weights proc n total) (f (some (r, rs)) p))
        → Keeps (IsBalanced weights proc n total) (f (pick i p.routines) p)
    picked-Keeps f i gone found = elim (Option-cases (pick i p.routines)) [
      | inl h ↦ subst (λ x. Keeps (IsBalanced weights proc n total) (f x p)) (sym h) gone
      | inr ((r, rs), h) ↦
          subst (λ x. Keeps (IsBalanced weights proc n total) (f x p)) (sym h)
            (found r rs (record {
              size = length-pick i p.routines rs r h;
              weight = weigh-pick weights proc i p.routines rs r h;
            }))
    ]

    pub process_any-Keeps :
        (r : Routine P) (rs : List (Routine P))
        → IsPicked p r rs
        → Keeps (IsBalanced weights proc n total) (run_process (some (r, rs)) p)
    unfolding run_process
    process_any-Keeps (processing x) rs here = process-Keeps x rs (p.proc x) refl here
    process_any-Keeps (sending y) rs here = tt

    pub send-Keeps :
        (r : Routine P) (rs : List (Routine P))
        → IsPicked p r rs
        → Keeps (IsBalanced weights proc n total) (send_output (some (r, rs)) p)
    unfolding send_output
    send-Keeps (processing x) rs here = tt
    send-Keeps (sending y) rs here = record {
      same_proc = v.same_proc;
      limit = v.limit;
      balance = omega (arith, v.balance, here.size);
      payloads = omega (arith, v.payloads, here.weight);
      in_range = v.in_range;
    }

    pub give_up-Keeps :
        (r : Routine P) (rs : List (Routine P))
        → IsPicked p r rs
        → Keeps (IsBalanced weights proc n total) (give_up (some (r, rs)) p)
    unfolding give_up
    give_up-Keeps (processing x) rs here = tt
    give_up-Keeps (sending y) rs here =
        if-Keeps (IsBalanced weights proc n total) p.cancelled _ (λ _. record {
          same_proc = v.same_proc;
          limit = v.limit;
          balance = omega (arith, v.balance, here.size);
          payloads = omega (arith, v.payloads, here.weight);
          in_range = v.in_range;
        })

    pub collect-Keeps : (es : List E) → Keeps (IsBalanced weights proc n total) (collect_error es p)
    unfolding collect_error
    collect-Keeps [] = tt
    collect-Keeps (e ∷ es) = record {
      same_proc = v.same_proc;
      limit = v.limit;
      balance = v.balance;
      payloads = v.payloads;
      in_range = v.in_range;
    }
