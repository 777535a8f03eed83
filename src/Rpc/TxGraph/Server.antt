-- ===== src/Rpc/TxGraph/Server.antt =====
-- txgraphapi/server.go: the handlers of the server around a graph.
use mathlib.Core.Option
use etherscan.Base.{Option, none, some, List, [], map}
use etherscan.TxGraph.Api.{GraphApi, GraphReader, Stream}
use etherscan.Rpc.Streams.{with_status, total, convert_all, Result, ok, error, serve, send_to}
use etherscan.Rpc.TxGraph.{
  ProtoBlock, ProtoTx, ProtoWallet, ProtoRange, Conversions, block_to_proto, block_from_proto,
  wallet_to_proto, wallet_from_proto, tx_to_proto, tx_from_proto,
}

module _ {G E : Type 0} where
  unfoldable pub server_upsert_blocks : GraphApi G E → List ProtoBlock → G → Option E × G
  unfolding block_from_proto
  server_upsert_blocks api req g = api.upsert_blocks (map block_from_proto req) g

  unfoldable pub server_upsert_wallets : GraphApi G E → List ProtoWallet → G → Option E × G
  unfolding wallet_from_proto
  server_upsert_wallets api req g = api.upsert_wallets (map wallet_from_proto req) g

  -- All messages are converted before the graph sees one of them.
  unfoldable pub server_insert_txs :
      {T : Type 0} → Conversions T E → GraphApi G E → List (ProtoTx T) → G → Option E × G
  unfolding convert_all tx_from_proto
  server_insert_txs conversions api req g = elim (convert_all (tx_from_proto conversions) req) [
    | error e ↦ (some e, g)
    | ok txs ↦ api.insert_txs txs g
  ]

  -- The streaming handlers; `S` is the state of the stream and `send` is its Send.
  module _ {S : Type 0} where
    unfoldable pub server_blocks :
        GraphReader G E → (ProtoBlock → S → Option E × S) → G → S → (Option E × S) × G
    unfolding serve block_to_proto
    server_blocks reader send g s =
        let ((failed, (items, err)), g') = reader.blocks g in
        (
          elim failed [
            | some e ↦ (some e, s)
            | none ↦ serve (total block_to_proto) send items err s
          ],
          g',
        )

    unfoldable pub server_wallet_txs :
        {T : Type 0}
        → Conversions T E
        → GraphReader G E
        → (ProtoTx T → S → Option E × S)
        → ProtoWallet
        → G
        → S
        → Option E × S
    unfolding serve tx_to_proto
    server_wallet_txs conversions reader send req g s =
        let (failed, (items, err)) = reader.wallet_txs req.address g in
        elim failed [
          | some e ↦ (some e, s)
          | none ↦ serve (tx_to_proto conversions) send items err s
        ]

    unfoldable pub server_wallets :
        GraphReader G E → (ProtoWallet → S → Option E × S) → ProtoRange → G → S → Option E × S
    unfolding serve wallet_to_proto
    server_wallets reader send req g s =
        let (failed, (items, err)) = reader.wallets req.from_address req.to_address g in
        elim failed [ some e ↦ (some e, s) | none ↦ serve (total wallet_to_proto) send items err s ]

-- What a client can call (proto.TxGraphClient): a method of the graph, or the opening of a stream,
-- which may fail.

pub record TxGraphRpc (T G E : Type 0) : Type 0 where
  pub upsert_blocks : List ProtoBlock → G → Option E × G
  pub insert_txs : List (ProtoTx T) → G → Option E × G
  pub upsert_wallets : List ProtoWallet → G → Option E × G
  pub blocks : G → Result E (Stream ProtoBlock E) × G
  pub wallet_txs : ProtoWallet → G → Result E (Stream (ProtoTx T) E)
  pub wallets : ProtoRange → G → Result E (Stream ProtoWallet E)

-- A connection that loses nothing, to a server around the graph. `status` is what the transport
-- makes of the error of a handler.
abbrev pub connect :
    {T G E : Type 0} → (E → E) → Conversions T E → GraphApi G E → GraphReader G E → TxGraphRpc T G E
connect status conversions api reader = record {
  upsert_blocks = λ req g. with_status status (server_upsert_blocks api req g);
  insert_txs = λ req g. with_status status (server_insert_txs conversions api req g);
  upsert_wallets = λ req g. with_status status (server_upsert_wallets api req g);
  blocks = λ g.
      let ((err, sent), g') = server_blocks reader send_to g [] in
      (ok (sent, Option.map status err), g');
  wallet_txs = λ req g.
      let (err, sent) = server_wallet_txs conversions reader send_to req g [] in
      ok (sent, Option.map status err);
  wallets = λ req g.
      let (err, sent) = server_wallets reader send_to req g [] in ok (sent, Option.map status err);
}
