-- ===== src/Rpc/TxGraph/Client.antt =====
-- txgraphapi/client.go: the client, which stands in for a graph.
use etherscan.Base.{Bool, Option, some, List, map}
use etherscan.Base.Text.{Text}
use etherscan.TxGraph.Types.{Block, Tx, Wallet}
use etherscan.TxGraph.Api.{Stream}
use etherscan.Rpc.Streams.{
  total, convert_all, Result, ok, error, Received, RpcIterator, new_iterator, advance,
}
use etherscan.Rpc.TxGraph.{
  ProtoBlock, ProtoTx, ProtoWallet, Conversions, block_to_proto, block_from_proto, wallet_to_proto,
  wallet_from_proto, tx_to_proto, tx_from_proto,
}
use etherscan.Rpc.TxGraph.Server.{TxGraphRpc}

module _ {T G E : Type 0} (conversions : Conversions T E) (cli : TxGraphRpc T G E) where
  unfoldable pub client_upsert_blocks : List Block → G → Option E × G
  unfolding block_to_proto
  client_upsert_blocks blocks g = cli.upsert_blocks (map block_to_proto blocks) g

  -- A transaction that cannot be converted ends the call before anything is sent.
  unfoldable pub client_insert_txs : List Tx → G → Option E × G
  unfolding convert_all tx_to_proto
  client_insert_txs txs g = elim (convert_all (tx_to_proto conversions) txs) [
    | error e ↦ (some e, g)
    | ok req ↦ cli.insert_txs req g
  ]

  unfoldable pub client_upsert_wallets : List Wallet → G → Option E × G
  unfolding wallet_to_proto
  client_upsert_wallets wallets g = cli.upsert_wallets (map wallet_to_proto wallets) g

  unfoldable pub client_blocks : G → Result E (RpcIterator (Stream ProtoBlock E) E Block) × G
  client_blocks g =
      let (opened, g') = cli.blocks g in
      elim opened [ error e ↦ (error e, g') | ok stream ↦ (ok (new_iterator stream), g') ]

  unfoldable pub client_wallet_txs : Text → G → Result E (RpcIterator (Stream (ProtoTx T) E) E Tx)
  client_wallet_txs address g = elim (cli.wallet_txs (record { address = address }) g) [
    | error e ↦ error e
    | ok stream ↦ ok (new_iterator stream)
  ]

  unfoldable pub client_wallets :
      Text → Text → G → Result E (RpcIterator (Stream ProtoWallet E) E Wallet)
  client_wallets from_address to_address g =
      elim (cli.wallets (record { from_address = from_address; to_address = to_address }) g) [
        | error e ↦ error e
        | ok stream ↦ ok (new_iterator stream)
      ]

-- The Next of the three iterators.
module _ {S E : Type 0} where
  unfoldable pub next_block :
      (S → Received E ProtoBlock × S) → RpcIterator S E Block → Bool × RpcIterator S E Block
  unfolding advance block_from_proto
  next_block recv it = advance recv (total block_from_proto) it

  unfoldable pub next_tx :
      {T : Type 0}
      → Conversions T E
      → (S → Received E (ProtoTx T) × S)
      → RpcIterator S E Tx
      → Bool × RpcIterator S E Tx
  unfolding advance tx_from_proto
  next_tx conversions recv it = advance recv (tx_from_proto conversions) it

  unfoldable pub next_wallet :
      (S → Received E ProtoWallet × S) → RpcIterator S E Wallet → Bool × RpcIterator S E Wallet
  unfolding advance wallet_from_proto
  next_wallet recv it = advance recv (total wallet_from_proto) it
