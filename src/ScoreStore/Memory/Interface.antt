-- ===== src/ScoreStore/Memory/Interface.antt =====
-- scorestore/memory/: the in-memory store as a score store.
use etherscan.Base.{none, length}
use etherscan.ScoreStore.Types.{Error}
use etherscan.ScoreStore.Api.{ScoreStoreApi}
use etherscan.ScoreStore.Memory.{InMemoryScoreStore, upsert_scores, upsert_scorer, scorers, search}

abbrev pub memory_api : {F : Type 0} → ScoreStoreApi (InMemoryScoreStore F) F Error
memory_api = record {
  upsert_scores = upsert_scores;
  upsert_scorer = upsert_scorer;
  scorers = λ ss.
      let items = scorers ss in
      (none, record { total_count = length items; items = items; err = none });
  search = λ query ss.
      let (items, err) = search query ss in
      (err, record { total_count = length items; items = items; err = none });
}
