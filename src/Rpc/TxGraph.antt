-- ===== src/Rpc/TxGraph.antt =====
-- txgraphapi/client.go and server.go: the transaction graph behind gRPC.
pub mod Server
pub mod Client
pub mod Remote
pub mod Malformed
use etherscan.Base.{ℕ, Bool, Option, none, some, List, [], ◌∷◌, map, ℤ}
use etherscan.Base.Text.{Text}
use etherscan.Base.Decimal.{set_string, to_string}
use etherscan.TxGraph.Types.{Block, Tx, TxStatus, fail, success, unknown, Wallet}
use etherscan.TxGraph.Api.{GraphApi, GraphReader, Stream}
use etherscan.Rpc.Words.{int32}
use etherscan.Rpc.Streams.{Result, ok, error, serve}

-- The messages, with the names of the .proto file. `T` is the type of a protocol-buffer timestamp. A
-- status is one of the three named numbers, which are the same on both sides.
pub record ProtoBlock : Type 0 where
  pub number : ℤ
  pub processed : Bool

pub record ProtoTx (T : Type 0) : Type 0 where
  pub hash : Text
  pub status : TxStatus
  pub block : Text
  pub timestamp : T
  pub from : Text
  pub to : Text
  pub value : Text
  pub transaction_fee : Text
  pub input : List ℕ

pub record ProtoWallet : Type 0 where
  pub address : Text

pub record ProtoRange : Type 0 where
  pub from_address : Text
  pub to_address : Text

-- types.TimestampProto and types.TimestampFromProto, and the error of a failed SetString.
pub record Conversions (T E : Type 0) : Type 0 where
  pub timestamp_proto : ℕ → Result E T
  pub timestamp_from_proto : T → Result E ℕ
  pub invalid_bigint : E

unfoldable pub block_to_proto : Block → ProtoBlock
unfolding int32
block_to_proto block = record { number = int32 block.number; processed = block.processed }

unfoldable pub block_from_proto : ProtoBlock → Block
block_from_proto block = record { number = block.number; processed = block.processed }

unfoldable pub wallet_to_proto : Wallet → ProtoWallet
wallet_to_proto wallet = record { address = wallet.address }

unfoldable pub wallet_from_proto : ProtoWallet → Wallet
wallet_from_proto wallet = record { address = wallet.address }

module _ {T E : Type 0} (conversions : Conversions T E) where
  unfoldable pub tx_to_proto : Tx → Result E (ProtoTx T)
  unfolding to_string
  tx_to_proto tx = elim (conversions.timestamp_proto tx.timestamp) [
    | error e ↦ error e
    | ok timestamp ↦ ok (record {
      hash = tx.hash;
      status = tx.status;
      block = to_string tx.block;
      timestamp = timestamp;
      from = tx.from;
      to = tx.to;
      value = to_string tx.value;
      transaction_fee = to_string tx.transaction_fee;
      input = tx.input;
    })
  ]

  unfoldable pub bigint_from_proto : Text → Result E ℤ
  unfolding set_string
  bigint_from_proto s = elim (set_string s) [
    | none ↦ error conversions.invalid_bigint
    | some n ↦ ok n
  ]

  unfoldable pub tx_from_proto : ProtoTx T → Result E Tx
  unfolding bigint_from_proto
  tx_from_proto tx = elim (conversions.timestamp_from_proto tx.timestamp) [
    | error e ↦ error e
    | ok timestamp ↦ elim (bigint_from_proto tx.block) [
      | error e ↦ error e
      | ok block ↦ elim (bigint_from_proto tx.value) [
        | error e ↦ error e
        | ok value ↦ elim (bigint_from_proto tx.transaction_fee) [
          | error e ↦ error e
          | ok transaction_fee ↦ ok (record {
            hash = tx.hash;
            status = tx.status;
            block = block;
            timestamp = timestamp;
            from = tx.from;
            to = tx.to;
            value = value;
            transaction_fee = transaction_fee;
            input = tx.input;
          })
        ]
      ]
    ]
  ]
