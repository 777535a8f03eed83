-- ===== src/TxGraph/Memory/Iterators/Drain.antt =====
-- txgraph/store/memory/iterator.go: a loop over an iterator.
use mathlib.Core.List.{append_assoc}
use etherscan.Base.{
  ap₂, ℕ, zero, suc, ◌+◌, ◌<◌, ◌≡◌, refl, sym, ap, true, false, some, List, [], ◌∷◌, ◌++◌, length,
  get_elem?, arith, length-append,
}
use etherscan.TxGraph.Memory.Iterators.{TxIterator, next, tx, drain}

module _ {X : Type 0} where
  get_elem?-append :
      (xs : List X) (y : X) (ys : List X) → get_elem? (xs ++ y ∷ ys) (length xs) ≡ some y
  get_elem?-append [] y ys = refl
  get_elem?-append (x ∷ xs) y ys = get_elem?-append xs y ys

  -- The iterator after the items `xs`, before the items `ys`.
  abbrev between : List X → List X → TxIterator X
  between xs ys = record { txs = xs ++ ys; cur_index = length xs }

  between-cons :
      (xs : List X) (y : X) (ys : List X)
      → record (between xs (y ∷ ys)) { cur_index = length xs + 1 } ≡ between (xs ++ y ∷ []) ys
  between-cons xs y ys =
      ap₂ (λ (l : List X) (n : ℕ). record { txs = l; cur_index = n })
        (sym (append_assoc xs (y ∷ []) ys)) (omega (arith, length-append xs (y ∷ [])))

  next-between_nil : (xs : List X) → next (between xs []) ≡ (false, between xs [])
  unfolding next
  next-between_nil xs = ground (arith, length-append xs [])

  next-between_cons :
      (xs : List X) (y : X) (ys : List X)
      → next (between xs (y ∷ ys))
        ≡ (true, record (between xs (y ∷ ys)) { cur_index = suc (length xs) })
  unfolding next
  next-between_cons xs y ys = ground (arith, length-append xs (y ∷ ys))

  drain-between :
      (fuel : ℕ) (xs ys : List X) → length ys < fuel → drain fuel (between xs ys) ≡ some ys
  unfolding drain tx
  drain-between zero xs ys h = absurd (omega arith)
  drain-between (suc fuel) xs [] h = ground (arith, next-between_nil xs)
  drain-between (suc fuel) xs (y ∷ ys) h = ground (
    arith,
    next-between_cons xs y ys,
    get_elem?-append xs y ys,
    ap (drain fuel) (between-cons xs y ys),
    drain-between fuel (xs ++ y ∷ []) ys,
  )

  -- A loop over a new iterator ends, without a panic, and sees all items in their order. One unit of
  -- fuel for each item and one to end is enough.
  pub drain_lem :
      (fuel : ℕ) (items : List X)
      → length items < fuel
      → drain fuel (record { txs = items; cur_index = 0 }) ≡ some items
  drain_lem fuel items h = drain-between fuel [] items h
