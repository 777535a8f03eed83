-- ===== src/Pipeline/Pool/Places.antt =====
-- pipeline/stage.go: what each event of a pool of workers does to its tokens and payloads.
use etherscan.Base.{ℕ, zero, suc, ◌+◌, ◌≤◌, ◌≡◌, ap, List, [], ◌∷◌, length, arith}
use etherscan.Base.Events.{Keeps, if-Keeps}
use etherscan.Pipeline.{Outcome}
use etherscan.Pipeline.Pool.{
  Loop, receiving, holding, emptying, returned, Pool, read_input, start_routine, leave_loop,
  empty_pool, return_pool,
}
use etherscan.Pipeline.Pool.Weights.{weigh, Weights, of_payload, held, weigh_payloads}

-- The tokens that Run has not taken back, of `n`.

abbrev pub tokens_left : {P : Type 0} → ℕ → Loop P → ℕ
tokens_left n receiving = n
tokens_left n (holding x) = n
tokens_left n (emptying k) = k
tokens_left n returned = 0

module _ {P E : Type 0} where
  pub record IsBalanced (weights : Weights P E) (proc : P → Outcome P E) (n total : ℕ)
      (p : Pool P E) : Type 0 where
    pub same_proc : p.proc ≡ proc
    pub limit : p.max_workers ≡ n
    pub balance : p.tokens + length p.routines ≡ tokens_left n p.loop
    pub payloads : weigh_payloads weights proc p ≡ total
    pub in_range : tokens_left n p.loop ≤ n

  module _ (weights : Weights P E) (proc : P → Outcome P E) (n total : ℕ) (p : Pool P E)
      (v : IsBalanced weights proc n total p) where
    pub read-Keeps :
        (l : Loop P) (xs : List P)
        → p.loop ≡ l
        → p.input ≡ xs
        → Keeps (IsBalanced weights proc n total) (read_input l xs p)
    unfolding read_input
    read-Keeps receiving (x ∷ xs) at here =
        let n_left : tokens_left n p.loop ≡ n = ap (tokens_left n) at in
        let none_held : held weights proc p.loop ≡ 0 = ap (held weights proc) at in
        let size : weigh (of_payload weights proc) p.input
            ≡ of_payload weights proc x + weigh (of_payload weights proc) xs =
          ap (weigh (of_payload weights proc)) here in
        record {
          same_proc = v.same_proc;
          limit = v.limit;
          balance = omega (arith, v.balance, n_left);
          payloads = omega (arith, v.payloads, none_held, size);
          in_range = omega arith;
        }
    read-Keeps receiving [] at here = tt
    read-Keeps (holding y) xs at here = tt
    read-Keeps (emptying k) xs at here = tt
    read-Keeps returned xs at here = tt

    pub start-Keeps :
        (l : Loop P) (t : ℕ)
        → p.loop ≡ l
        → p.tokens ≡ t
        → Keeps (IsBalanced weights proc n total) (start_routine l t p)
    unfolding start_routine
    start-Keeps (holding x) (suc t) at here =
        let n_left : tokens_left n p.loop ≡ n = ap (tokens_left n) at in
        let one_held : held weights proc p.loop ≡ of_payload weights proc x =
          ap (held weights proc) at in
        record {
          same_proc = v.same_proc;
          limit = v.limit;
          balance = omega (arith, v.balance, n_left, here);
          payloads = omega (arith, v.payloads, one_held);
          in_range = omega arith;
        }
    start-Keeps (holding x) zero at here = tt
    start-Keeps receiving t at here = tt
    start-Keeps (emptying k) t at here = tt
    start-Keeps returned t at here = tt

    pub leave-Keeps :
        (l : Loop P) (xs : List P)
        → p.loop ≡ l
        → Keeps (IsBalanced weights proc n total) (leave_loop l xs p)
    unfolding leave_loop
    leave-Keeps receiving [] at =
        let n_left : tokens_left n p.loop ≡ n = ap (tokens_left n) at in
        let none_held : held weights proc p.loop ≡ 0 = ap (held weights proc) at in
        record {
          same_proc = v.same_proc;
          limit = v.limit;
          balance = omega (arith, v.balance, n_left, v.limit);
          payloads = omega (arith, v.payloads, none_held);
          in_range = omega (arith, v.limit);
        }
    leave-Keeps receiving (x ∷ xs) at =
        let n_left : tokens_left n p.loop ≡ n = ap (tokens_left n) at in
        let none_held : held weights proc p.loop ≡ 0 = ap (held weights proc) at in
        if-Keeps (IsBalanced weights proc n total) p.cancelled _ (λ _. record {
          same_proc = v.same_proc;
          limit = v.limit;
          balance = omega (arith, v.balance, n_left, v.limit);
          payloads = omega (arith, v.payloads, none_held);
          in_range = omega (arith, v.limit);
        })
    leave-Keeps (holding x) xs at =
        let n_left : tokens_left n p.loop ≡ n = ap (tokens_left n) at in
        let one_held : held weights proc p.loop ≡ of_payload weights proc x =
          ap (held weights proc) at in
        if-Keeps (IsBalanced weights proc n total) p.cancelled _ (λ _. record {
          same_proc = v.same_proc;
          limit = v.limit;
          balance = omega (arith, v.balance, n_left, v.limit);
          payloads = omega (arith, v.payloads, one_held);
          in_range = omega (arith, v.limit);
        })
    leave-Keeps (emptying k) xs at = tt
    leave-Keeps returned xs at = tt

    pub empty-Keeps :
        (l : Loop P) (t : ℕ)
        → p.loop ≡ l
        → p.tokens ≡ t
        → Keeps (IsBalanced weights proc n total) (empty_pool l t p)
    unfolding empty_pool
    empty-Keeps (emptying (suc k)) (suc t) at here =
        let k_left : tokens_left n p.loop ≡ suc k = ap (tokens_left n) at in
        let none_held : held weights proc p.loop ≡ 0 = ap (held weights proc) at in
        record {
          same_proc = v.same_proc;
          limit = v.limit;
          balance = omega (arith, v.balance, k_left, here);
          payloads = omega (arith, v.payloads, none_held);
          in_range = omega (arith, v.in_range, k_left);
        }
    empty-Keeps (emptying zero) t at here = tt
    empty-Keeps (emptying (suc k)) zero at here = tt
    empty-Keeps receiving t at here = tt
    empty-Keeps (holding x) t at here = tt
    empty-Keeps returned t at here = tt

    pub return-Keeps :
        (l : Loop P) → p.loop ≡ l → Keeps (IsBalanced weights proc n total) (return_pool l p)
    unfolding return_pool
    return-Keeps (emptying zero) at =
        let none_left : tokens_left n p.loop ≡ 0 = ap (tokens_left n) at in
        let none_held : held weights proc p.loop ≡ 0 = ap (held weights proc) at in
        record {
          same_proc = v.same_proc;
          limit = v.limit;
          balance = omega (arith, v.balance, none_left);
          payloads = omega (arith, v.payloads, none_held);
          in_range = omega arith;
        }
    return-Keeps (emptying (suc k)) at = tt
    return-Keeps receiving at = tt
    return-Keeps (holding x) at = tt
    return-Keeps returned at = tt
