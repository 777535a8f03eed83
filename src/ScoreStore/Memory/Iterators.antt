-- ===== src/ScoreStore/Memory/Iterators.antt =====
-- scorestore/memory/iterator.go: the iterators of the in-memory store, a list and an index. The iterators
-- for scores and for scorers differ in nothing but the type of their items; Error and Close return nil.
use etherscan.Base.{
  [], ℕ, zero, suc, ◌+◌, ◌<◌, ◌≡◌, refl, ◌∙◌, Bool, true, false, Option, none, some, List, [], ◌∷◌,
  length, get_elem?, leb, arith, if◌then◌else◌,
}
use etherscan.ScoreStore.Types.{Score, Scorer, Query}
use etherscan.ScoreStore.Memory.{InMemoryScoreStore, scorers, search}
use etherscan.TxGraph.Memory.Iterators
use etherscan.TxGraph.Memory.Iterators.{TxIterator}
use etherscan.TxGraph.Memory.Iterators.Drain.{drain_lem}

pub record ScoreIterator (X : Type 0) : Type 0 where
  pub scores : List X
  pub cur_index : ℕ

module _ {X : Type 0} where
  unfoldable pub next : ScoreIterator X → Bool × ScoreIterator X
  next i =
      if leb (length i.scores) i.cur_index
      then (false, i)
      else (true, record i { cur_index = i.cur_index + 1 })

  -- `none` is the panic of a call before the first Next.
  unfoldable pub score : ScoreIterator X → Option X
  score i = elim i.cur_index [ zero ↦ none | suc n ↦ get_elem? i.scores n ]

  unfoldable pub total_count : ScoreIterator X → ℕ
  total_count i = length i.scores

  -- `for it.Next() { list = append(list, it.Score()) }`; `none` is a panic or the end of the fuel.
  unfoldable pub drain : ℕ → ScoreIterator X → Option (List X)
  unfolding next score
  drain zero i = none
  drain (suc fuel) i =
      let (more, i') = next i in
      elim more [
        | false ↦ some []
        | true ↦ elim (score i') [
          | none ↦ none
          | some x ↦ elim (drain fuel i') [ none ↦ none | some xs ↦ some (x ∷ xs) ]
        ]
      ]

  -- It is the iterator of the transaction graph, under other names.
  drain-same :
      (fuel : ℕ) (xs : List X) (n : ℕ)
      → drain fuel (record { scores = xs; cur_index = n })
        ≡ Iterators.drain fuel (record { txs = xs; cur_index = n })
  unfolding drain next score Iterators.drain Iterators.next Iterators.tx
  drain-same zero xs n = refl
  drain-same (suc fuel) xs n = ground (arith, drain-same fuel xs (n + 1))

-- What Search and Scorers return.
unfoldable pub search_iterator :
    {F : Type 0} → Query → InMemoryScoreStore F → ScoreIterator (Score F)
search_iterator query ss = record { scores = (search query ss).0; cur_index = 0 }

unfoldable pub scorer_iterator : {F : Type 0} → InMemoryScoreStore F → ScoreIterator Scorer
scorer_iterator ss = record { scores = scorers ss; cur_index = 0 }

-- A loop over the iterator of Search ends and sees what Search found, as many as TotalCount says.
drain-search_iterator :
    {F : Type 0} (query : Query) (ss : InMemoryScoreStore F) (fuel : ℕ)
    → total_count (search_iterator query ss) < fuel
    → drain fuel (search_iterator query ss) ≡ some (search query ss).0
unfolding search_iterator total_count
drain-search_iterator query ss fuel h =
    drain-same fuel (search query ss).0 0 ∙ drain_lem fuel (search query ss).0 h
