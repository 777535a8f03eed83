-- ===== src/Rpc/ScoreStore/Client.antt =====
-- scorestoreapi/client.go: the client, which stands in for a score store.
use etherscan.Base.{ℕ, Bool, Option, List, map}
use etherscan.ScoreStore.Types.{Score, Scorer, Query}
use etherscan.Rpc.Streams.{
  Result, ok, error, Received, message, eof, failure, RpcIterator, new_iterator, advance, receive,
}
use etherscan.Rpc.ScoreStore.{
  ProtoScore, ProtoScorer, Response, count, item, unset, Conversions, scorer_to_proto,
  query_to_proto, score_to_proto, score_from_response, scorer_from_response,
}
use etherscan.Rpc.ScoreStore.Server.{ScoreStoreRpc}

pub record CountedIterator (O E X : Type 0) : Type 0 where
  pub it : RpcIterator O E X
  pub total_count : ℕ

module _ {F E : Type 0} (conversions : Conversions F E) where
  -- `Read the result count`: an item in its place is an error, and a response that is unset counts 0.
  unfoldable pub read_count :
      {M X : Type 0}
      → Result E (List (Response M) × Option E)
      → Result E (CountedIterator (List (Response M) × Option E) E X)
  read_count (error e) = error e
  read_count (ok stream) =
      let (res, stream') = receive stream in
      elim res [
        | failure e ↦ error e
        | eof ↦ error conversions.io_eof
        | message m ↦ elim m [
          | item _ ↦ error conversions.expected_count
          | count n ↦ ok (record { it = new_iterator stream'; total_count = n })
          | unset ↦ ok (record { it = new_iterator stream'; total_count = 0 })
        ]
      ]

  module _ {S : Type 0} (cli : ScoreStoreRpc S E) where
    unfoldable pub client_upsert_scores : List (Score F) → S → Option E × S
    unfolding score_to_proto
    client_upsert_scores scores s = cli.upsert_scores (map (score_to_proto conversions) scores) s

    unfoldable pub client_upsert_scorer : Scorer → S → Option E × S
    unfolding scorer_to_proto
    client_upsert_scorer scorer s = cli.upsert_scorer (scorer_to_proto scorer) s

    unfoldable pub client_scorers :
        S → Result E (CountedIterator (List (Response ProtoScorer) × Option E) E Scorer)
    unfolding read_count
    client_scorers s = read_count (cli.scorers s)

    unfoldable pub client_search :
        Query → S → Result E (CountedIterator (List (Response ProtoScore) × Option E) E (Score F))
    unfolding read_count query_to_proto
    client_search query s = read_count (cli.search (query_to_proto query) s)

-- The Next of the two iterators.
module _ {O F E : Type 0} (conversions : Conversions F E) where
  unfoldable pub next_score :
      (O → Received E (Response ProtoScore) × O)
      → RpcIterator O E (Score F)
      → Bool × RpcIterator O E (Score F)
  unfolding advance score_from_response
  next_score recv it = advance recv (score_from_response conversions) it

  unfoldable pub next_scorer :
      (O → Received E (Response ProtoScorer) × O)
      → RpcIterator O E Scorer
      → Bool × RpcIterator O E Scorer
  unfolding advance scorer_from_response
  next_scorer recv it = advance recv (scorer_from_response conversions) it
