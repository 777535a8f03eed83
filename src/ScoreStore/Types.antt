-- ===== src/ScoreStore/Types.antt =====
-- scorestore/scorestore.go and error.go: the data of a score store. `F` is the type of big.Float.
use etherscan.Base.{ℕ}
use etherscan.Base.Text.{Text}

pub record Score (F : Type 0) : Type 0 where
  pub wallet : Text
  pub scorer : Text
  pub value : F

pub record Scorer : Type 0 where
  pub name : Text

-- A QueryType is an uint8, of which one value has a name.
abbrev pub query_type_scorer : ℕ
query_type_scorer = 0

pub record Query : Type 0 where
  pub query_type : ℕ
  pub expression : Text
  pub offset : ℕ

pub data Error : Type 0 where
  unknown_scorer : Text → Error
  unknown_query_type : ℕ → Error
