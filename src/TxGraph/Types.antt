-- ===== src/TxGraph/Types.antt =====
-- txgraph/graph/graph.go and error.go: the data of a transaction graph.
use etherscan.Base.{ℕ, Bool, ℤ, List}
use etherscan.Base.Text.{Text}

pub record Block : Type 0 where
  pub number : ℤ
  pub processed : Bool

pub data TxStatus : Type 0 where
  fail success unknown : TxStatus

-- `timestamp` is a count of nanoseconds, `input` is the source's `Data`.
pub record Tx : Type 0 where
  pub hash : Text
  pub status : TxStatus
  pub block : ℤ
  pub timestamp : ℕ
  pub from : Text
  pub to : Text
  pub value : ℤ
  pub transaction_fee : ℤ
  pub input : List ℕ

pub record Wallet : Type 0 where
  pub address : Text

pub data Error : Type 0 where
  not_found invalid_address unknown_address channel_closed : Error
