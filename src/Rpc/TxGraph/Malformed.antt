-- ===== src/Rpc/TxGraph/Malformed.antt =====
-- txgraphapi/server.go: what InsertTxs makes of messages that it cannot convert.
use etherscan.Base.{
  ◌≡◌, refl, Bool, true, false, ◌||◌, Option, none, some, List, [], ◌∷◌, length, arith, inl, inr,
  ◌⊎◌,
}
use etherscan.Base.Decimal.{set_string}
use etherscan.TxGraph.Types.{Tx}
use etherscan.TxGraph.Api.{GraphApi}
use etherscan.Rpc.Streams.{convert_all, Result, ok, error}
use etherscan.Rpc.TxGraph.{ProtoTx, Conversions, tx_from_proto, bigint_from_proto}
use etherscan.Rpc.TxGraph.Server.{server_insert_txs}

abbrev is_error : {E X : Type 0} → Result E X → Bool
is_error (ok x) = false
is_error (error e) = true

abbrev is_none : {X : Type 0} → Option X → Bool
is_none none = true
is_none (some x) = false

Result-cases : {E X : Type 0} (r : Result E X) → ((e : E) × (r ≡ error e)) ⊎ ((x : X) × (r ≡ ok x))
Result-cases (error e) = inl (e, refl)
Result-cases (ok x) = inr (x, refl)

length-convert_all :
    {E X Y : Type 0} (f : X → Result E Y) (xs : List X) (ys : List Y)
    → convert_all f xs ≡ ok ys
    → length ys ≡ length xs
unfolding convert_all
length-convert_all f [] ys h = ground arith
length-convert_all f (x ∷ xs) [] h = ground arith
length-convert_all f (x ∷ xs) (y ∷ ys) h = ground (arith, length-convert_all f xs ys)

module _ {T G E : Type 0} (conversions : Conversions T E) (api : GraphApi G E) where
  -- The timestamp or one of the three numbers of the message has no meaning.
  abbrev is_malformed : ProtoTx T → Bool
  is_malformed tx =
      is_error (conversions.timestamp_from_proto tx.timestamp)
      || is_none (set_string tx.block)
      || is_none (set_string tx.value)
      || is_none (set_string tx.transaction_fee)

  abbrev pub any_malformed : List (ProtoTx T) → Bool
  any_malformed [] = false
  any_malformed (tx ∷ txs) = is_malformed tx || any_malformed txs

  is_error-tx_from_proto :
      (tx : ProtoTx T) → is_error (tx_from_proto conversions tx) ≡ is_malformed tx
  unfolding tx_from_proto bigint_from_proto
  is_error-tx_from_proto tx = ground arith

  is_error-convert_all :
      (txs : List (ProtoTx T))
      → is_error (convert_all (tx_from_proto conversions) txs) ≡ any_malformed txs
  unfolding convert_all
  is_error-convert_all [] = refl
  is_error-convert_all (tx ∷ txs) =
      ground (arith, is_error-tx_from_proto tx, is_error-convert_all txs)

  -- InsertTxs of the server is all or nothing for its messages: one that has a timestamp or a number
  -- without a meaning makes the call fail before the graph sees any transaction; if there is none,
  -- the graph gets one transaction for each message.
  pub server_insert_txs_malformed :
      (req : List (ProtoTx T)) (g : G)
      → ((any_malformed req ≡ true)
          × ((e : E) × (server_insert_txs conversions api req g ≡ (some e, g))))
        ⊎ ((any_malformed req ≡ false)
            × ((txs : List Tx) × (server_insert_txs conversions api req g ≡ api.insert_txs txs g)
                × (length txs ≡ length req)))
  unfolding server_insert_txs
  server_insert_txs_malformed req g =
      elim (Result-cases (convert_all (tx_from_proto conversions) req)) [
        | inl (e, failed) ↦
            inl (ground (arith, failed, is_error-convert_all req), (e, ground (arith, failed)))
        | inr (ts, passed) ↦ inr (
          ground (arith, passed, is_error-convert_all req),
          (
            ts,
            ground (arith, passed),
            length-convert_all (tx_from_proto conversions) req ts passed,
          ),
        )
      ]
