-- ===== src/Pipeline/Broadcast/Copies.antt =====
-- pipeline/stage.go: every FIFO of Broadcast receives every payload, in the order of the input.
use mathlib.Core.Path.{subst}
use mathlib.Core.List.{append_assoc}
use etherscan.Base.{
  ℕ, zero, suc, ◌≡◌, refl, sym, ap, ap₂, ◌∙◌, Option, none, some, List, [], ◌∷◌, ◌++◌, length,
  arith, map, get_elem?, Bool, true, ◌||◌, not,
}
use etherscan.Base.Events.{Keeps, if-Keeps, run_events-Keeps}
use etherscan.Pipeline.{Outcome, Worker, receiving, sending, stopped, Outlet}
use etherscan.Pipeline.Broadcast.{
  Fifo, Loop, running, leaving, returned, Broadcast, Event, read, pass, leave, return, cancel, send,
  stop, copy, new_fifos, new_broadcast, read_input, receive, after_pass, pass_payload, leave_loop,
  all_stopped, return_broadcast, worker_at, set_worker, send_output, is_running, stop_fifo, fire,
  fire_all,
}
use etherscan.Pipeline.Broadcast.Handed.{
  handed, in_hand, handed-before, handed-after, HaveCopies, KeepsCopies, HaveCopies-change,
  receive-KeepsCopies, set_worker-HaveCopies, HaveCopies-get,
}

module _ {P E : Type 0} where
  record IsCopied (clone : P → P) (source : List P) (b : Broadcast P E) : Type 0 where
    pub same_clone : b.clone ≡ clone
    pub copies : HaveCopies clone 0 b.passed b.pending b.fifos
    pub all_input : b.passed ++ (in_hand b.pending ++ b.input) ≡ source

  module _ (clone : P → P) (source : List P) (b : Broadcast P E) (v : IsCopied clone source b) where
    read-Keeps :
        (l : Loop) (pend : Option (ℕ × P)) (xs : List P)
        → b.pending ≡ pend
        → b.input ≡ xs
        → Keeps (IsCopied clone source) (read_input l pend xs b)
    unfolding read_input
    read-Keeps running none (x ∷ xs) at here = record {
      same_clone = v.same_clone;
      copies =
          HaveCopies-change clone 0 (length b.fifos) b.passed b.passed none _ b.fifos (omega arith)
            (λ i _ below. sym (handed-before i (length b.fifos) b.passed x below))
            (subst (λ pd. HaveCopies clone 0 b.passed pd b.fifos) at v.copies);
      all_input = ap₂ (λ pd ys. b.passed ++ (in_hand pd ++ ys)) (sym at) (sym here) ∙ v.all_input;
    }
    read-Keeps running none [] at here = tt
    read-Keeps running (some p) xs at here = tt
    read-Keeps leaving pend xs at here = tt
    read-Keeps returned pend xs at here = tt

    after_pass-IsCopied :
        (i : ℕ) (p : P) (fs : List (Fifo P E)) (o : Outlet P E)
        → b.pending ≡ some (suc i, p)
        → HaveCopies clone 0 b.passed (some (i, p)) fs
        → IsCopied clone source (after_pass i p (record b { fifos = fs; outlet = o }))
    after_pass-IsCopied zero p fs o at h =
        let before : b.passed ++ p ∷ b.input ≡ source =
          ap (λ pd. b.passed ++ (in_hand pd ++ b.input)) (sym at) ∙ v.all_input in
        record {
          same_clone = v.same_clone;
          copies =
              HaveCopies-change clone 0 (length fs) b.passed (b.passed ++ p ∷ []) (some (0, p)) none
                fs (omega arith) (λ i _ _. handed-after i 0 b.passed p (omega arith)) h;
          all_input = append_assoc b.passed (p ∷ []) b.input ∙ before;
        }
    after_pass-IsCopied (suc i) p fs o at h = record {
      same_clone = v.same_clone;
      copies = h;
      all_input = ap (λ pd. b.passed ++ (in_hand pd ++ b.input)) (sym at) ∙ v.all_input;
    }

    received-Keeps :
        (i : ℕ) (p : P) (r : Option (List (Fifo P E) × Outlet P E))
        → b.pending ≡ some (suc i, p)
        → KeepsCopies clone 0 b.passed (some (i, p)) r
        → Keeps (IsCopied clone source) (elim r [
          | none ↦ none
          | some (fs, o) ↦ some (after_pass i p (record b { fifos = fs; outlet = o }))
        ])
    received-Keeps i p none at h = tt
    received-Keeps i p (some (fs, o)) at h = after_pass-IsCopied i p fs o at h

    pass-Keeps :
        (l : Loop) (pend : Option (ℕ × P))
        → b.pending ≡ pend
        → Keeps (IsCopied clone source) (pass_payload l pend b)
    unfolding pass_payload
    pass-Keeps running (some (suc i, p)) at =
        received-Keeps i p (receive i (copy b.clone i p) b.fifos b.outlet) at (
          subst
            (λ c.
              KeepsCopies clone 0 b.passed (some (i, p)) (receive i (copy c i p) b.fifos b.outlet))
            (sym v.same_clone)
            (receive-KeepsCopies clone i 0 i b.passed p b.fifos b.outlet (omega arith)
              (subst (λ pd. HaveCopies clone 0 b.passed pd b.fifos) at v.copies)))
    pass-Keeps running (some (zero, p)) at = tt
    pass-Keeps running none at = tt
    pass-Keeps leaving pend at = tt
    pass-Keeps returned pend at = tt

    -- What becomes of the loop, the context and the output does not matter.
    others-IsCopied :
        (l : Loop) (c : Bool) (out : List P)
        → IsCopied clone source (record b { loop = l; cancelled = c; output = out })
    others-IsCopied l c out = record {
      same_clone = v.same_clone;
      copies = v.copies;
      all_input = v.all_input;
    }

    worker-IsCopied :
        (i : ℕ) (w : Worker P) (out : List P)
        → IsCopied clone source (record b { fifos = set_worker i w b.fifos; output = out })
    worker-IsCopied i w out = record {
      same_clone = v.same_clone;
      copies = set_worker-HaveCopies clone 0 i w b.passed b.pending b.fifos v.copies;
      all_input = v.all_input;
    }

    leave-Keeps :
        (l : Loop) (pend : Option (ℕ × P)) (xs : List P)
        → Keeps (IsCopied clone source) (leave_loop l pend xs b)
    unfolding leave_loop
    leave-Keeps running none [] = others-IsCopied leaving b.cancelled b.output
    leave-Keeps running none (x ∷ xs) =
        if-Keeps (IsCopied clone source) b.cancelled _
          λ _. others-IsCopied leaving b.cancelled b.output
    leave-Keeps running (some p) xs =
        if-Keeps (IsCopied clone source) b.cancelled _
          λ _. others-IsCopied leaving b.cancelled b.output
    leave-Keeps leaving pend xs = tt
    leave-Keeps returned pend xs = tt

    return-Keeps : (l : Loop) → Keeps (IsCopied clone source) (return_broadcast l b)
    unfolding return_broadcast
    return-Keeps leaving =
        if-Keeps (IsCopied clone source) (all_stopped b.fifos) _
          λ _. others-IsCopied returned b.cancelled b.output
    return-Keeps running = tt
    return-Keeps returned = tt

    send-Keeps : (i : ℕ) (w : Worker P) → Keeps (IsCopied clone source) (send_output i w b)
    unfolding send_output
    send-Keeps i (sending q) = worker-IsCopied i receiving (b.output ++ q ∷ [])
    send-Keeps i receiving = tt
    send-Keeps i stopped = tt

    stop-Keeps : (i : ℕ) (w : Worker P) → Keeps (IsCopied clone source) (stop_fifo i w b)
    unfolding stop_fifo
    stop-Keeps i receiving =
        if-Keeps (IsCopied clone source) (b.cancelled || not (is_running b.loop)) _
          λ _. worker-IsCopied i stopped b.output
    stop-Keeps i (sending q) =
        if-Keeps (IsCopied clone source) b.cancelled _ λ _. worker-IsCopied i stopped b.output
    stop-Keeps i stopped = tt

    fire-Keeps : (e : Event) → Keeps (IsCopied clone source) (fire e b)
    unfolding fire
    fire-Keeps read = read-Keeps b.loop b.pending b.input refl refl
    fire-Keeps pass = pass-Keeps b.loop b.pending refl
    fire-Keeps leave = leave-Keeps b.loop b.pending b.input
    fire-Keeps return = return-Keeps b.loop
    fire-Keeps cancel = others-IsCopied b.loop true b.output
    fire-Keeps (send i) = send-Keeps i (worker_at i b.fifos)
    fire-Keeps (stop i) = stop-Keeps i (worker_at i b.fifos)

  new_fifos-HaveCopies :
      (clone : P → P) (j : ℕ) (fs : List (P → Outcome P E))
      → HaveCopies clone j [] none (new_fifos fs)
  new_fifos-HaveCopies clone j [] = tt
  new_fifos-HaveCopies clone j (f ∷ fs) = (refl, new_fifos-HaveCopies clone (suc j) fs)

-- Whatever happens in the stage of Broadcast, the FIFOs have received the payloads of the input in its
-- order, the first FIFO the payloads themselves and the others copies: all that were passed on to every
-- FIFO, and those whose turn has come the one that Run passes on. Nothing else was read.

pub fire_all_copies :
    {P E : Type 0} (fs : List (P → Outcome P E)) (clone : P → P) (outlet : Outlet P E)
    (source : List P) (es : List Event) (b0 b : Broadcast P E)
    → new_broadcast fs clone outlet source ≡ some b0
    → fire_all es b0 ≡ some b
    → (b.passed ++ (in_hand b.pending ++ b.input) ≡ source)
      × ((i : ℕ) (f : Fifo P E)
          → get_elem? b.fifos i ≡ some f
          → f.taken ≡ map (copy clone i) (handed i b.passed b.pending))
unfolding new_broadcast fire_all
fire_all_copies [] clone outlet source es b0 b made run = absurd (ground (arith, made))
fire_all_copies (f ∷ fs) clone outlet source es b0 b made run =
    let v =
      run_events-Keeps fire (IsCopied clone source) es b0 b (λ e s v. fire-Keeps clone source s v e)
        run
        (subst (Keeps (IsCopied clone source)) made (record {
          same_clone = refl;
          copies = new_fifos-HaveCopies clone 0 (f ∷ fs);
          all_input = refl;
        })) in
    (
      v.all_input,
      λ i f at.
          subst (λ k. f.taken ≡ map (copy clone k) (handed k b.passed b.pending)) (omega arith)
            (HaveCopies-get clone 0 i b.passed b.pending b.fifos f at v.copies),
    )
