-- ===== src/Rpc/ScoreStore.antt =====
-- scorestoreapi/client.go and server.go: the score store behind gRPC.
pub mod Server
pub mod Client
pub mod Remote
use etherscan.Base.{ℕ, ◌%◌, Option, none, some, List, [], ◌∷◌}
use etherscan.Base.Text.{Text}
use etherscan.ScoreStore.Types.{Score, Scorer, Query}
use etherscan.Rpc.Streams.{Result, ok, error}

-- The messages, with the names of the .proto file.
pub record ProtoScore : Type 0 where
  pub wallet : Text
  pub scorer : Text
  pub value : Text

pub record ProtoScorer : Type 0 where
  pub name : Text

pub record ProtoQuery : Type 0 where
  pub query_type : ℕ
  pub expression : Text
  pub offset : ℕ

-- ScorersResponse and SearchResponse: a oneof, which may be unset.
pub data Response (M : Type 0) : Type 0 where
  count : ℕ → Response M
  item : M → Response M
  unset : Response M

-- String and SetString of big.Float: String prints ten digits. And the errors that the client and
-- the server make themselves.
pub record Conversions (F E : Type 0) : Type 0 where
  pub to_text : F → Text
  pub of_text : Text → Option F
  pub invalid_bigint : E
  pub expected_count : E
  pub received_nil : E
  pub io_eof : E

unfoldable pub scorer_to_proto : Scorer → ProtoScorer
scorer_to_proto scorer = record { name = scorer.name }

unfoldable pub scorer_from_proto : ProtoScorer → Scorer
scorer_from_proto scorer = record { name = scorer.name }

-- A QueryType is an uint8, and a number of an enum is larger.
unfoldable pub query_to_proto : Query → ProtoQuery
query_to_proto query = record {
  query_type = query.query_type;
  expression = query.expression;
  offset = query.offset;
}

unfoldable pub query_from_proto : ProtoQuery → Query
query_from_proto query = record {
  query_type = query.query_type % 256;
  expression = query.expression;
  offset = query.offset;
}

module _ {F E : Type 0} (conversions : Conversions F E) where
  unfoldable pub score_to_proto : Score F → ProtoScore
  score_to_proto score = record {
    wallet = score.wallet;
    scorer = score.scorer;
    value = conversions.to_text score.value;
  }

  unfoldable pub score_from_proto : ProtoScore → Result E (Score F)
  score_from_proto score = elim (conversions.of_text score.value) [
    | none ↦ error conversions.invalid_bigint
    | some value ↦ ok (record { wallet = score.wallet; scorer = score.scorer; value = value })
  ]

  -- The conversion in the Next of the two iterators.
  unfoldable pub score_from_response : Response ProtoScore → Result E (Score F)
  unfolding score_from_proto
  score_from_response (item score) = score_from_proto score
  score_from_response _ = error conversions.received_nil

  unfoldable pub scorer_from_response : Response ProtoScorer → Result E Scorer
  unfolding scorer_from_proto
  scorer_from_response (item scorer) = ok (scorer_from_proto scorer)
  scorer_from_response _ = error conversions.received_nil
