-- ===== src/Rpc/ScoreStore/Remote.antt =====
-- scorestoreapi/: a client behind a connection to a server around a score store.
use mathlib.Core.Option
use etherscan.Base.{
  Bool, ℕ, ◌<◌, ◌≡◌, refl, ap, Option, none, some, List, [], ◌∷◌, map, length, arith, All,
}
use etherscan.ScoreStore.Types.{Score, Scorer, Query}
use etherscan.ScoreStore.Api.{ScoreStoreApi, ResultIterator}
use etherscan.Rpc.Streams.{
  with_status, convert_all, total, Result, ok, error, RpcIterator, advance, collect, receive,
  send_to,
}
use etherscan.Rpc.Streams.Delivery.{ArrivesAs, collect-messages, serve-messages}
use etherscan.Rpc.ScoreStore.{
  Response, count, item, Conversions, scorer_to_proto, scorer_from_proto, query_to_proto,
  query_from_proto, score_to_proto, score_from_proto, score_from_response, scorer_from_response,
}
use etherscan.Rpc.ScoreStore.Server.{
  connect, serve_counted, server_upsert_scores, server_upsert_scorer, server_scorers, server_search,
}
use etherscan.Rpc.ScoreStore.Client.{
  CountedIterator, read_count, client_upsert_scores, client_upsert_scorer, client_scorers,
  client_search, next_score, next_scorer,
}

-- The score with another value.
abbrev pub shorten : {F : Type 0} → (F → F) → Score F → Score F
shorten shortened score = record {
  wallet = score.wallet;
  scorer = score.scorer;
  value = shortened score.value;
}

module _ {E : Type 0} where
  -- What a loop over an iterator with a count sees.
  abbrev pub read_all :
      {M X : Type 0}
      → (RpcIterator (List M × Option E) E X → Bool × RpcIterator (List M × Option E) E X)
      → ℕ
      → Result E (CountedIterator (List M × Option E) E X)
      → Result E (ℕ × Option (List X × Option E))
  read_all next fuel (error e) = error e
  read_all next fuel (ok found) = ok (found.total_count, collect next fuel found.it)

  -- What the iterator of the store is to a remote client that sees `f x` for the item x.
  abbrev pub remote :
      {X : Type 0}
      → (E → E)
      → (X → X)
      → Option E × ResultIterator X E
      → Result E (ℕ × Option (List X × Option E))
  remote status f (some e, it) = error (status e)
  remote status f (none, it) = ok (it.total_count, some (map f it.items, Option.map status it.err))

module _ {S F E : Type 0} (status : E → E) (conversions : Conversions F E)
    (api : ScoreStoreApi S F E) (shortened : F → F)
    (reads : (v : F) → conversions.of_text (conversions.to_text v) ≡ some (shortened v)) where
  score_arrives :
      (score : Score F)
      → score_from_proto conversions (score_to_proto conversions score)
        ≡ ok (shorten shortened score)
  unfolding score_from_proto score_to_proto
  score_arrives score = ground (arith, reads score.value)

  scores_arrive :
      (scores : List (Score F))
      → convert_all (score_from_proto conversions) (map (score_to_proto conversions) scores)
        ≡ ok (map (shorten shortened) scores)
  unfolding convert_all
  scores_arrive [] = refl
  scores_arrive (score ∷ scores) = ground (arith, score_arrives score, scores_arrive scores)

  items_arrive :
      {X M : Type 0} (to : X → M) (from : Response M → Result E X) (f : X → X) (xs : List X)
      → ((x : X) → from (item (to x)) ≡ ok (f x))
      → All (ArrivesAs (total (λ x. item (to x))) from f) xs
  items_arrive to from f [] arrives = tt
  items_arrive to from f (x ∷ xs) arrives =
      ((item (to x), refl, arrives x), items_arrive to from f xs arrives)

  read_count-serve_counted :
      {X M : Type 0} (to : X → M) (from : Response M → Result E X) (f : X → X) (fuel : ℕ)
      (opened : Option E × ResultIterator X E)
      → ((x : X) → from (item (to x)) ≡ ok (f x))
      → length opened.1.items < fuel
      → let (err, sent) = serve_counted conversions api to send_to opened [] in
        read_all
          (advance receive from)
          fuel
          (read_count conversions (ok (sent, Option.map status err)))
        ≡ remote status f opened
  unfolding serve_counted read_count
  read_count-serve_counted to from f fuel (some e, it) arrives h = refl
  read_count-serve_counted to from f fuel (none, it) arrives h =
      let all = items_arrive to from f it.items arrives in
      rw
        (serve-messages (total (λ x. item (to x))) from f it.items it.err
          (count it.total_count ∷ []) all)
        (ap (λ r. ok (it.total_count, r))
          (collect-messages (total (λ x. item (to x))) from f fuel it.items
            (Option.map status it.err) all h))

  query_back :
      (query : Query) → query.query_type < 256 → query_from_proto (query_to_proto query) ≡ query
  unfolding query_from_proto query_to_proto
  query_back query h =
      ap
        (λ (n : ℕ). record { query_type = n; expression = query.expression; offset = query.offset })
        (omega arith)

  -- Through the client, the score store does what it does when it is called itself, but for the
  -- values of scores, which are those that their texts of ten digits read as; its errors come
  -- through the transport. A loop over an iterator of the client ends, and reads the count, the items
  -- in their order, and the error. A query type is an uint8; one unit of fuel for each item and one
  -- to end is enough.
  pub remote_score_store :
      (scores : List (Score F)) (scorer : Scorer) (query : Query) (fuel : ℕ) (s : S)
      → query.query_type < 256
      → length (api.scorers s).1.items < fuel
      → length (api.search query s).1.items < fuel
      → let cli = connect status conversions api in
        (client_upsert_scores conversions cli scores s
          ≡ with_status status (api.upsert_scores (map (shorten shortened) scores) s))
        × (client_upsert_scorer conversions cli scorer s
            ≡ with_status status (api.upsert_scorer scorer s))
        × (read_all (next_scorer conversions receive) fuel (client_scorers conversions cli s)
            ≡ remote status (λ x. x) (api.scorers s))
        × (read_all (next_score conversions receive) fuel (client_search conversions cli query s)
            ≡ remote status (shorten shortened) (api.search query s))
  unfolding client_upsert_scores client_upsert_scorer client_scorers client_search
      server_upsert_scores server_upsert_scorer server_scorers server_search next_score next_scorer
      scorer_to_proto scorer_from_proto scorer_from_response score_from_response
  remote_score_store scores scorer query fuel s type_fits h1 h2 = (
    ground (arith, scores_arrive scores),
    refl,
    read_count-serve_counted scorer_to_proto (scorer_from_response conversions) (λ x. x) fuel
        (api.scorers s) (λ x. refl) h1,
    rw (query_back query type_fits) (
        read_count-serve_counted (score_to_proto conversions) (score_from_response conversions)
          (shorten shortened) fuel (api.search query s) score_arrives h2),
  )
