-- ===== src/Pipeline/Broadcast/Handed.antt =====
-- pipeline/stage.go: what a send to one FIFO of Broadcast does to the payloads that the FIFOs have got.
use mathlib.Core.Path.{subst}
use mathlib.Core.List.{map-append}
use etherscan.Base.{
  ℕ, zero, suc, ◌+◌, ◌<◌, ◌≤◌, ◌≡◌, sym, ap, ◌∙◌, Option, none, some, List, [], ◌∷◌, ◌++◌, length,
  arith, map, get_elem?, ltb, if◌then◌else◌,
}
use etherscan.Pipeline.{Worker, receiving, sending, stopped, Outlet, run_stage}
use etherscan.Pipeline.Broadcast.{Fifo, copy, receive, set_worker}

-- The payloads that the FIFO at the place `i` has got.

abbrev pub handed : {P : Type 0} → ℕ → List P → Option (ℕ × P) → List P
handed i ps none = ps
handed i ps (some (k, p)) = if ltb i k then ps else ps ++ p ∷ []

abbrev pub in_hand : {P : Type 0} → Option (ℕ × P) → List P
in_hand none = []
in_hand (some (k, p)) = p ∷ []

pub handed-before :
    {P : Type 0} (i k : ℕ) (ps : List P) (p : P) → i < k → handed i ps (some (k, p)) ≡ ps
handed-before i k ps p h = ground (arith, h)

pub handed-after :
    {P : Type 0} (i k : ℕ) (ps : List P) (p : P) → k ≤ i → handed i ps (some (k, p)) ≡ ps ++ p ∷ []
handed-after i k ps p h = ground (arith, h)

module _ {P E : Type 0} where
  module _ (clone : P → P) where
    abbrev pub HaveCopies : ℕ → List P → Option (ℕ × P) → List (Fifo P E) → Type 0
    HaveCopies j ps pend [] = Unit {0}
    HaveCopies j ps pend (f ∷ fs) =
        (f.taken ≡ map (copy clone j) (handed j ps pend)) × HaveCopies (suc j) ps pend fs

    -- The payloads that the FIFOs have got determine the invariant.
    pub HaveCopies-change :
        (j n : ℕ) (ps qs : List P) (pend pend' : Option (ℕ × P)) (fs : List (Fifo P E))
        → j + length fs ≤ n
        → ((i : ℕ) → j ≤ i → i < n → handed i ps pend ≡ handed i qs pend')
        → HaveCopies j ps pend fs
        → HaveCopies j qs pend' fs
    HaveCopies-change j n ps qs pend pend' [] fits same h = tt
    HaveCopies-change j n ps qs pend pend' (f ∷ fs) fits same (here, later) = (
      here ∙ ap (map (copy clone j)) (same j (omega arith) (omega (arith, fits))),
      HaveCopies-change (suc j) n ps qs pend pend' fs (omega (arith, fits))
          (λ i above below. same i (omega (arith, above)) below) later,
    )

    abbrev pub KeepsCopies :
        ℕ → List P → Option (ℕ × P) → Option (List (Fifo P E) × Outlet P E) → Type 0
    KeepsCopies j ps pend none = Unit {0}
    KeepsCopies j ps pend (some (fs, o)) = HaveCopies j ps pend fs

    behind-KeepsCopies :
        (j : ℕ) (ps : List P) (pend : Option (ℕ × P)) (f : Fifo P E)
        (r : Option (List (Fifo P E) × Outlet P E))
        → f.taken ≡ map (copy clone j) (handed j ps pend)
        → KeepsCopies (suc j) ps pend r
        → KeepsCopies j ps pend (elim r [ none ↦ none | some (fs, o) ↦ some (f ∷ fs, o) ])
    behind-KeepsCopies j ps pend f none here later = tt
    behind-KeepsCopies j ps pend f (some r) here later = (here, later)

    pub receive-KeepsCopies :
        (i j k : ℕ) (ps : List P) (p : P) (fs : List (Fifo P E)) (o : Outlet P E)
        → j + i ≡ k
        → HaveCopies j ps (some (suc k, p)) fs
        → KeepsCopies j ps (some (k, p)) (receive i (copy clone k p) fs o)
    unfolding receive
    receive-KeepsCopies i j k ps p [] o at h = tt
    receive-KeepsCopies zero j k ps p (f ∷ fs) o at (here, later) =
        let here' : f.taken ++ copy clone k p ∷ []
            ≡ map (copy clone j) (handed j ps (some (k, p))) =
          ap (λ xs. xs ++ copy clone k p ∷ [])
            (here ∙ ap (map (copy clone j)) (handed-before j (suc k) ps p (omega (arith, at))))
          ∙ ap (λ c. map (copy clone j) ps ++ copy clone c p ∷ []) (omega (arith, at))
          ∙ sym (map-append (copy clone j) ps (p ∷ []))
          ∙ sym (ap (map (copy clone j)) (handed-after j k ps p (omega (arith, at)))) in
        let later' : HaveCopies (suc j) ps (some (k, p)) fs =
          HaveCopies-change (suc j) (suc j + length fs) ps ps _ (some (k, p)) fs (omega arith)
            (λ i above below.
              handed-after i (suc k) ps p (omega (arith, above, at))
              ∙ sym (handed-after i k ps p (omega (arith, above, at))))
            later in
        elim (f.stage.worker)
          as (λ w.
            KeepsCopies j ps (some (k, p)) (elim w as (λ x. Option (List (Fifo P E) × Outlet P E)) [
              | receiving ↦
                  let (s, o') = run_stage (copy clone k p) f.stage o in
                  some (record { stage = s; taken = f.taken ++ copy clone k p ∷ [] } ∷ fs, o')
              | sending q ↦ none
              | stopped ↦ none
            ])) [ receiving ↦ (here', later') | sending q ↦ tt | stopped ↦ tt ]
    receive-KeepsCopies (suc i) j k ps p (f ∷ fs) o at (here, later) =
        behind-KeepsCopies j ps (some (k, p)) f (receive i (copy clone k p) fs o)
          (here
            ∙ ap (map (copy clone j)) (
                handed-before j (suc k) ps p (omega (arith, at))
                ∙ sym (handed-before j k ps p (omega (arith, at)))))
          (receive-KeepsCopies i (suc j) k ps p fs o (omega (arith, at)) later)

    pub set_worker-HaveCopies :
        (j i : ℕ) (w : Worker P) (ps : List P) (pend : Option (ℕ × P)) (fs : List (Fifo P E))
        → HaveCopies j ps pend fs
        → HaveCopies j ps pend (set_worker i w fs)
    unfolding set_worker
    set_worker-HaveCopies j i w ps pend [] h = tt
    set_worker-HaveCopies j zero w ps pend (f ∷ fs) h = h
    set_worker-HaveCopies j (suc i) w ps pend (f ∷ fs) (here, later) =
        (here, set_worker-HaveCopies (suc j) i w ps pend fs later)

    pub HaveCopies-get :
        (j i : ℕ) (ps : List P) (pend : Option (ℕ × P)) (fs : List (Fifo P E)) (f : Fifo P E)
        → get_elem? fs i ≡ some f
        → HaveCopies j ps pend fs
        → f.taken ≡ map (copy clone (j + i)) (handed (j + i) ps pend)
    HaveCopies-get j i ps pend [] f at h = absurd (ground (arith, at))
    HaveCopies-get j zero ps pend (f' ∷ fs) f at (here, later) =
        let same : f' ≡ f = ground (arith, at) in
        subst (λ k. f.taken ≡ map (copy clone k) (handed k ps pend)) (omega arith)
          (sym (ap (λ x. x.taken) same) ∙ here)
    HaveCopies-get j (suc i) ps pend (f' ∷ fs) f at (here, later) =
        subst (λ k. f.taken ≡ map (copy clone k) (handed k ps pend)) (omega arith)
          (HaveCopies-get (suc j) i ps pend fs f at later)
