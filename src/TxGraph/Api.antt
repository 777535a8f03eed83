-- ===== src/TxGraph/Api.antt =====
-- The operations of a transaction graph that other components call (scanner/scanner.go,
-- txgraphapi/server.go, depl/monolith/service/gravitas/gravitas.go). An iterator is a stream: the
-- items that Next goes through, and the error that ends it, if any.
use etherscan.Base.{Option, List}
use etherscan.Base.Text.{Text}
use etherscan.TxGraph.Types.{Block, Tx, Wallet}

abbrev pub Stream : Type 0 → Type 0 → Type 0
Stream X E = List X × Option E

-- `G` is the state of the graph, `E` the type of its errors.
pub record GraphApi (G E : Type 0) : Type 0 where
  pub upsert_blocks : List Block → G → Option E × G
  pub insert_txs : List Tx → G → Option E × G
  pub upsert_wallets : List Wallet → G → Option E × G

-- `blocks` may change the graph: the in-memory store fills the gaps between its blocks.
pub record GraphReader (G E : Type 0) : Type 0 where
  pub blocks : G → (Option E × Stream Block E) × G
  pub wallet_txs : Text → G → Option E × Stream Tx E
  pub wallets : Text → Text → G → Option E × Stream Wallet E
