-- ===== src/ScoreStore/Api.antt =====
-- scorestore/scorestore.go: the interface of a score store (ScoreStore, ScoreIterator,
-- ScorerIterator). An iterator is its TotalCount, the items that Next goes through, and the error that
-- ends it, if any.
use etherscan.Base.{ℕ, Option, List}
use etherscan.ScoreStore.Types.{Score, Scorer, Query}

pub record ResultIterator (X E : Type 0) : Type 0 where
  pub total_count : ℕ
  pub items : List X
  pub err : Option E

-- `S` is the state of the store, `F` the type of big.Float, `E` that of the errors.
pub record ScoreStoreApi (S F E : Type 0) : Type 0 where
  pub upsert_scores : List (Score F) → S → Option E × S
  pub upsert_scorer : Scorer → S → Option E × S
  pub scorers : S → Option E × ResultIterator Scorer E
  pub search : Query → S → Option E × ResultIterator (Score F) E
