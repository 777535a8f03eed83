-- ===== src/Scanner/Examples.antt =====
-- scanner/: runs at concrete inputs.
use etherscan.Base.{
  ℕ, ◌+◌, ◌≡◌, refl, true, ◌||◌, none, some, List, [], ◌∷◌, arith, pos, int_eq, ◌==◌, ◌⊎◌,
}
use etherscan.Base.Text.{Text, text_eq, codes}
use etherscan.Base.Map.{lookup, has_key}
use etherscan.TxGraph.Types.{Block, Tx, Error, not_found}
use etherscan.TxGraph.Memory.{InMemoryGraph}
use etherscan.TxGraph.Memory.Blocks.{is_processed}
use etherscan.TxGraph.Memory.Txs.{IsConsistent}
use etherscan.TxGraph.Memory.Interface.{memory_api}
use etherscan.Scanner.Parser.{parse_to, Transaction, ScannerPayload, process}
use etherscan.Scanner.Parser.Stores.{AllValid, IsStored, process_stores}
use etherscan.Scanner.Parser.Records.{in_payload, AmongPayload}
use etherscan.Scanner.Blocks.{EthClient, CountingSink, scan_block}
use etherscan.Scanner.Blocks.Processed.{scan_block_error, scan_block_processed}

abbrev empty : InMemoryGraph
empty = record { blocks = []; txs = []; wallets = []; wallet_txs_map = [] }

empty-IsConsistent : IsConsistent empty
unfolding lookup
empty-IsConsistent = record { filed = λ h tx e. ground (arith, e); listed = λ a. tt }

-- A payment and the creation of a contract.
abbrev two_txs : List Transaction
two_txs =
    record {
      hash = codes "0xab";
      to = some (codes "0x00000000000000000000000000000000000000aa");
      value = pos 5;
      cost = pos 7;
      input = [];
    }
    ∷ record { hash = codes "0xcd"; to = none; value = pos 0; cost = pos 2; input = 1 ∷ [] }
    ∷ []

two_txs-AllValid : AllValid two_txs
unfolding parse_to
two_txs-AllValid = (refl, (refl, tt))

abbrev same : List Text → List Text
same ks = ks

abbrev clock : ℕ → ℕ
clock i = 100 + i

abbrev payload : ScannerPayload
payload = record { block_number = pos 3; txs = two_txs }

process_stores_example :
    ((process memory_api same clock payload empty).0 ≡ (some payload, none))
    × IsStored payload empty (process memory_api same clock payload empty).1
process_stores_example =
    process_stores same clock payload empty (λ ks a. refl) two_txs-AllValid empty-IsConsistent

abbrev client : EthClient Error
client number = (none, two_txs)

abbrev no_client : EthClient Error
no_client number = (some not_found, [])

abbrev block_3 : Block
block_3 = record { number = pos 3; processed = true }

abbrev sink : CountingSink
sink = record { count = 4 }

abbrev pooled : ScannerPayload
pooled = record { block_number = pos 0; txs = [] }

scan_block_processed_example :
    let (err, sink', g') = scan_block client memory_api same clock pooled block_3 (sink, empty) in
    (err ≡ none)
    × (sink'.count ≡ 5)
    × (is_processed (pos 3) g' ≡ (is_processed (pos 3) empty || pos 3 == pos 3))
    × (has_key (codes "ab") g'.txs
        ≡ (in_payload (codes "ab") two_txs || has_key (codes "ab") empty.txs))
    × ((t : Tx)
        → lookup (codes "ab") g'.txs ≡ some t
        → (lookup (codes "ab") empty.txs ≡ some t) ⊎ AmongPayload (pos 3) t two_txs)
scan_block_processed_example =
    scan_block_processed same clock client pooled block_3 sink empty two_txs (pos 3) (codes "ab")
      refl (λ ks a. refl) two_txs-AllValid empty-IsConsistent

scan_block_error_example :
    (scan_block no_client memory_api same clock pooled block_3 (sink, empty)).2.blocks ≡ []
unfolding scan_block
scan_block_error_example =
    scan_block_error same clock no_client pooled block_3 sink empty not_found (ground arith)
