-- ===== src/Rpc/ScoreStore/Server.antt =====
-- scorestoreapi/server.go: the handlers of the server around a score store.
use mathlib.Core.Option
use etherscan.Base.{Option, none, some, List, []}
use etherscan.ScoreStore.Api.{ScoreStoreApi, ResultIterator}
use etherscan.Rpc.Streams.{with_status, convert_all, total, Result, ok, error, serve, send_to}
use etherscan.Rpc.ScoreStore.{
  ProtoScore, ProtoScorer, ProtoQuery, Response, count, item, Conversions, scorer_to_proto,
  scorer_from_proto, query_from_proto, score_to_proto, score_from_proto,
}

module _ {S F E : Type 0} (conversions : Conversions F E) (api : ScoreStoreApi S F E) where
  -- All messages are converted before the store sees one of them.
  unfoldable pub server_upsert_scores : List ProtoScore → S → Option E × S
  unfolding convert_all score_from_proto
  server_upsert_scores req s = elim (convert_all (score_from_proto conversions) req) [
    | error e ↦ (some e, s)
    | ok scores ↦ api.upsert_scores scores s
  ]

  unfoldable pub server_upsert_scorer : ProtoScorer → S → Option E × S
  unfolding scorer_from_proto
  server_upsert_scorer req s = api.upsert_scorer (scorer_from_proto req) s

  -- The rest of the two streaming handlers: the count, and then the items.
  unfoldable pub serve_counted :
      {X M O : Type 0}
      → (X → M)
      → (Response M → O → Option E × O)
      → Option E × ResultIterator X E
      → O
      → Option E × O
  unfolding serve
  serve_counted convert send (failed, it) out = elim failed [
    | some e ↦ (some e, out)
    | none ↦
        let (unsent, out') = send (count it.total_count) out in
        elim unsent [
          | some e ↦ (some e, out')
          | none ↦ serve (total (λ x. item (convert x))) send it.items it.err out'
        ]
  ]

  -- `O` is the state of the stream and `send` is its Send.
  unfoldable pub server_scorers :
      {O : Type 0} → (Response ProtoScorer → O → Option E × O) → S → O → Option E × O
  unfolding serve_counted scorer_to_proto
  server_scorers send s out = serve_counted scorer_to_proto send (api.scorers s) out

  unfoldable pub server_search :
      {O : Type 0} → (Response ProtoScore → O → Option E × O) → ProtoQuery → S → O → Option E × O
  unfolding serve_counted query_from_proto score_to_proto
  server_search send req s out =
      serve_counted (score_to_proto conversions) send (api.search (query_from_proto req) s) out

-- What a client can call (proto.ScoreStoreClient): a method of the store, or the opening of a stream,
-- which may fail.

pub record ScoreStoreRpc (S E : Type 0) : Type 0 where
  pub upsert_scores : List ProtoScore → S → Option E × S
  pub upsert_scorer : ProtoScorer → S → Option E × S
  pub scorers : S → Result E (List (Response ProtoScorer) × Option E)
  pub search : ProtoQuery → S → Result E (List (Response ProtoScore) × Option E)

-- A connection that loses nothing, to a server around the store. `status` is what the transport
-- makes of the error of a handler.
abbrev pub connect :
    {S F E : Type 0} → (E → E) → Conversions F E → ScoreStoreApi S F E → ScoreStoreRpc S E
connect status conversions api = record {
  upsert_scores = λ req s. with_status status (server_upsert_scores conversions api req s);
  upsert_scorer = λ req s. with_status status (server_upsert_scorer conversions api req s);
  scorers = λ s.
      let (err, sent) = server_scorers conversions api send_to s [] in
      ok (sent, Option.map status err);
  search = λ req s.
      let (err, sent) = server_search conversions api send_to req s [] in
      ok (sent, Option.map status err);
}
