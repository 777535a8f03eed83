-- ===== src/Scanner/Blocks.antt =====
-- scanner/block_fetcher.go and scanner.go: the other stages, and the way of one block through all of
-- them.
pub mod Processed
use etherscan.Base.{ℕ, ◌+◌, Option, none, some, List, [], ◌∷◌, Bool, true, ℤ}
use etherscan.Base.Text.{Text}
use etherscan.TxGraph.Types.{Block}
use etherscan.TxGraph.Api.{GraphApi}
use etherscan.Scanner.Parser.{Transaction, ScannerPayload, process, mark_as_processed}

-- BlockByNumber and Transactions of the Ethereum client: the transactions of a block, or an error.
abbrev pub EthClient : Type 0 → Type 0
EthClient E = ℤ → Option E × List Transaction

-- blockFetcher.Process
unfoldable pub fetch :
    {E : Type 0} → EthClient E → ScannerPayload → Option ScannerPayload × Option E
fetch client p =
    let (err, txs) = client p.block_number in
    elim err [ some e ↦ (none, some e) | none ↦ (some (record p { txs = txs }), none) ]

-- blockSource.Payload, with a payload from the pool.
unfoldable pub source_payload : ScannerPayload → Block → ScannerPayload
source_payload pooled block = record pooled { block_number = block.number }

pub record CountingSink : Type 0 where
  pub count : ℕ

module _ {G E : Type 0} where
  unfoldable pub consume :
      GraphApi G E → ScannerPayload → CountingSink × G → Option E × CountingSink × G
  consume api p (sink, g) =
      let (err, g') =
        api.upsert_blocks (record { number = p.block_number; processed = true } ∷ []) g in
      (err, record { count = sink.count + 1 }, g')

  -- A payload that the fetcher and the parser let through reaches the sink.
  unfoldable pub parse_and_consume :
      GraphApi G E
      → (List Text → List Text)
      → (ℕ → ℕ)
      → ScannerPayload
      → CountingSink × G
      → Option E × CountingSink × G
  unfolding consume
  parse_and_consume api order clock p (sink, g) =
      let ((passed, err), g') = process api order clock p g in
      elim err [
        | some e ↦ (some e, sink, g')
        | none ↦ elim passed [ none ↦ (none, sink, g') | some p' ↦ consume api p' (sink, g') ]
      ]

  -- The way of one block through the stages that assembleScannerPipeline strings together.
  unfoldable pub scan_block :
      EthClient E
      → GraphApi G E
      → (List Text → List Text)
      → (ℕ → ℕ)
      → ScannerPayload
      → Block
      → CountingSink × G
      → Option E × CountingSink × G
  unfolding fetch source_payload parse_and_consume
  scan_block client api order clock pooled block (sink, g) =
      let (passed, err) = fetch client (source_payload pooled block) in
      elim err [
        | some e ↦ (some e, sink, g)
        | none ↦ elim passed [
          | none ↦ (none, sink, g)
          | some p ↦ parse_and_consume api order clock p (sink, g)
        ]
      ]
