-- ===== src/Rpc/Examples.antt =====
-- txgraphapi/, scorestoreapi/: runs at concrete inputs, with the in-memory stores.
use etherscan.Base.{
  false, ℕ, ◌/◌, ◌*◌, ◌≡◌, refl, true, none, some, List, [], ◌∷◌, arith, ℤ, pos, negsuc, int_eq,
  ◌⊎◌, length,
}
use etherscan.Base.Map.{has_key, lookup, insert, values}
use etherscan.Base.Text.{text_eqb, text_ltb, Text, text_eq, codes}
use etherscan.TxGraph.Types as Txs
use etherscan.TxGraph.Types.{Block, Tx, Wallet, success, not_found, invalid_address}
use etherscan.TxGraph.Memory.{
  InMemoryGraph, insert_txs, upsert_blocks, upsert_wallets, get_unprocessed_blocks, wallet_txs,
  wallets,
}
use etherscan.TxGraph.Memory.Interface.{memory_api, memory_reader}
use etherscan.ScoreStore.Types as ScoreStore
use etherscan.ScoreStore.Types.{Score, Scorer, Query, unknown_scorer}
use etherscan.ScoreStore.Memory.{InMemoryScoreStore, upsert_scores, upsert_scorer, scorers, search}
use etherscan.ScoreStore.Memory.Interface
use etherscan.Rpc.ScoreStore as Scores
use etherscan.Rpc.ScoreStore.Server
use etherscan.Rpc.ScoreStore.Client.{
  client_upsert_scores, client_upsert_scorer, client_scorers, client_search, next_score,
  next_scorer,
}
use etherscan.Rpc.ScoreStore.Remote as ScoresRemote
use etherscan.Rpc.ScoreStore.Remote.{remote_score_store}
use etherscan.Rpc.Streams.{with_status, ok, receive}
use etherscan.Rpc.TxGraph.{Conversions, ProtoTx}
use etherscan.Rpc.TxGraph.Server.{connect, server_insert_txs}
use etherscan.Rpc.TxGraph.Client.{
  client_upsert_blocks, client_insert_txs, client_upsert_wallets, client_blocks, client_wallet_txs,
  client_wallets, next_block, next_tx, next_wallet,
}
use etherscan.Rpc.Words.{fits_int32}
use etherscan.Rpc.TxGraph.Remote.{read_all, remote, remote_updates, remote_reads}
use etherscan.Rpc.TxGraph.Malformed.{any_malformed, server_insert_txs_malformed}

-- Timestamps that keep the time as it is.

abbrev conversions : Conversions ℕ Txs.Error
conversions = record {
  timestamp_proto = λ t. ok t;
  timestamp_from_proto = λ t. ok t;
  invalid_bigint = invalid_address;
}

abbrev wallet : ℕ → Wallet
wallet n = record { address = n ∷ [] }

abbrev payment : Tx
payment = record {
  hash = codes "ab";
  status = success;
  block = pos 3;
  timestamp = 12;
  from = 1 ∷ [];
  to = 2 ∷ [];
  value = pos 10;
  transaction_fee = negsuc 3;
  input = [];
}

abbrev block : ℤ → Block
block n = record { number = n; processed = false }

-- Two wallets with a transaction, and a gap before the third block.
abbrev graph : InMemoryGraph
graph = record {
  blocks = (pos 3, block (pos 3)) ∷ [];
  txs = (codes "ab", payment) ∷ [];
  wallets = (1 ∷ [], wallet 1) ∷ (2 ∷ [], wallet 2) ∷ [];
  wallet_txs_map = (1 ∷ [], codes "ab" ∷ []) ∷ [];
}

abbrev status : Txs.Error → Txs.Error
status e = not_found

remote_updates_example :
    let cli = connect status conversions memory_api memory_reader in
    (client_upsert_blocks conversions cli (block (negsuc 7) ∷ []) graph
      ≡ with_status status (upsert_blocks (block (negsuc 7) ∷ []) graph))
    × (client_insert_txs conversions cli (payment ∷ []) graph
        ≡ with_status status (insert_txs (payment ∷ []) graph))
    × (client_upsert_wallets conversions cli (wallet 9 ∷ []) graph
        ≡ with_status status (upsert_wallets (wallet 9 ∷ []) graph))
unfolding fits_int32
remote_updates_example =
    remote_updates status conversions memory_api memory_reader (block (negsuc 7) ∷ [])
      (payment ∷ []) (wallet 9 ∷ []) graph (refl, tt) ((12, refl, refl), tt)

remote_reads_example :
    let cli = connect status conversions memory_api memory_reader in
    (read_all (next_block receive) 5 (client_blocks conversions cli graph).0
      ≡ some (remote status (memory_reader.blocks graph).0))
    × ((client_blocks conversions cli graph).1 ≡ (memory_reader.blocks graph).1)
    × (read_all (next_tx conversions receive) 5 (client_wallet_txs conversions cli (1 ∷ []) graph)
        ≡ some (payment ∷ [], none))
    × (read_all (next_wallet receive) 5 (client_wallets conversions cli [] (3 ∷ []) graph)
        ≡ some (wallet 1 ∷ wallet 2 ∷ [], none))
unfolding fits_int32 get_unprocessed_blocks wallet_txs wallets has_key lookup insert text_eqb
    text_ltb
remote_reads_example =
    remote_reads status conversions memory_api memory_reader (1 ∷ []) [] (3 ∷ []) 5 graph
      (refl, (refl, (refl, tt))) ((12, refl, refl), tt) (omega arith) (omega arith) (omega arith)

-- One message whose value is no number, after a good one.
abbrev message_of : Text → ProtoTx ℕ
message_of value = record {
  hash = codes "ab";
  status = success;
  block = codes "3";
  timestamp = 12;
  from = 1 ∷ [];
  to = 2 ∷ [];
  value = value;
  transaction_fee = codes "-4";
  input = [];
}

server_insert_txs_malformed_example :
    let req = message_of (codes "10") ∷ message_of (codes "1x") ∷ [] in
    ((any_malformed conversions memory_api req ≡ true)
      × ((e : Txs.Error) × (server_insert_txs conversions memory_api req graph ≡ (some e, graph))))
    ⊎ ((any_malformed conversions memory_api req ≡ false)
        × ((txs : List Tx) × (server_insert_txs conversions memory_api req graph
              ≡ insert_txs txs graph)
            × (length txs ≡ 2)))
server_insert_txs_malformed_example =
    server_insert_txs_malformed conversions memory_api
      (message_of (codes "10") ∷ message_of (codes "1x") ∷ []) graph

-- A float is a number, and its text keeps the tens only.
abbrev float_texts : Scores.Conversions ℕ ScoreStore.Error
float_texts = record {
  to_text = λ v. v / 10 ∷ [];
  of_text = λ s. elim s [ [] ↦ none | d ∷ _ ↦ some (d * 10) ];
  invalid_bigint = unknown_scorer [];
  expected_count = unknown_scorer [];
  received_nil = unknown_scorer [];
  io_eof = unknown_scorer [];
}

abbrev shortened : ℕ → ℕ
shortened v = v / 10 * 10

abbrev no_status : ScoreStore.Error → ScoreStore.Error
no_status e = e

abbrev score_of : ℕ → Score ℕ
score_of v = record { wallet = 1 ∷ []; scorer = 8 ∷ []; value = v }

abbrev scorer : Scorer
scorer = record { name = 8 ∷ [] }

abbrev store : InMemoryScoreStore ℕ
store = record {
  scorers = (8 ∷ [], scorer) ∷ [];
  wallet_scores = (1 ∷ [], (8 ∷ [], score_of 37) ∷ []) ∷ [];
  scorer_wallets = [];
}

abbrev query : Query
query = record { query_type = 0; expression = 8 ∷ []; offset = 0 }

remote_score_store_example :
    let cli = Server.connect no_status float_texts Interface.memory_api in
    (client_upsert_scores float_texts cli (score_of 42 ∷ []) store
      ≡ with_status no_status (upsert_scores (score_of 40 ∷ []) store))
    × (client_upsert_scorer float_texts cli scorer store
        ≡ with_status no_status (upsert_scorer scorer store))
    × (ScoresRemote.read_all
          (next_scorer float_texts receive)
          5
          (client_scorers float_texts cli store)
        ≡ ok (1, some (scorer ∷ [], none)))
    × (ScoresRemote.read_all
          (next_score float_texts receive)
          5
          (client_search float_texts cli query store)
        ≡ ok (1, some (score_of 30 ∷ [], none)))
unfolding scorers search values lookup text_eqb
remote_score_store_example =
    remote_score_store no_status float_texts Interface.memory_api shortened (λ v. refl)
      (score_of 42 ∷ []) scorer query 5 store (omega arith) (omega arith) (omega arith)
