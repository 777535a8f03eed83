-- ===== src/Scanner/Blocks/Processed.antt =====
-- scanner/: which blocks the scanner marks as processed, over the in-memory graph.
use etherscan.Base.{
  ℕ, ◌+◌, ◌≡◌, refl, ◌∙◌, ap, true, false, ◌||◌, none, some, List, [], ◌∷◌, arith, ◌==◌, ℤ, int_eq,
  Option-cases, inl, inr, map, sym, ◌⊎◌,
}
use etherscan.Base.Text.{Text, text_eq}
use etherscan.Base.Map.{Map, lookup, has_key, keys}
use etherscan.Base.Member.{member}
use etherscan.TxGraph.Types.{Block, Tx, Error}
use etherscan.TxGraph.Memory.{InMemoryGraph, upsert_block, upsert_blocks, upsert_wallets}
use etherscan.TxGraph.Memory.Blocks.{is_processed, upsert_blocks_processed}
use etherscan.TxGraph.Memory.Txs.{IsConsistent}
use etherscan.TxGraph.Memory.Wallets.{insert_txs_blocks, upsert_wallets_blocks}
use etherscan.TxGraph.Memory.Interface.{memory_api}
use etherscan.Scanner.Parser.{
  Transaction, ScannerPayload, graph_txs, process, wallet_of, wallets_map,
}
use etherscan.Scanner.Parser.Stores.{AllValid, process_stores}
use etherscan.Scanner.Parser.Records.{in_payload, AmongPayload}
use etherscan.Scanner.Blocks.{
  EthClient, CountingSink, fetch, consume, parse_and_consume, scan_block, source_payload,
}

upsert_block_txs : (b : Block) (g : InMemoryGraph) → (upsert_block b g).1.txs ≡ g.txs
unfolding upsert_block
upsert_block_txs b g = ground arith

upsert_blocks_txs : (bs : List Block) (g : InMemoryGraph) → (upsert_blocks bs g).1.txs ≡ g.txs
unfolding upsert_blocks
upsert_blocks_txs [] g = refl
upsert_blocks_txs (b ∷ bs) g =
    ground (arith, upsert_blocks_txs bs (upsert_block b g).1, upsert_block_txs b g)

module _ (order : List Text → List Text) (clock : ℕ → ℕ) where
  process_blocks :
      (p : ScannerPayload) (g : InMemoryGraph)
      → (process memory_api order clock p g).1.blocks ≡ g.blocks
  unfolding process
  process_blocks p g = ground (
    arith,
    upsert_wallets_blocks (map wallet_of (order (keys (wallets_map p.txs [])))) g,
    insert_txs_blocks (graph_txs p.block_number clock 0 p.txs)
        (upsert_wallets (map wallet_of (order (keys (wallets_map p.txs [])))) g).1,
  )

  consume_lem :
      (p : ScannerPayload) (sink : CountingSink) (g : InMemoryGraph) (number : ℤ)
      → ((consume memory_api p (sink, g)).0 ≡ none)
        × ((consume memory_api p (sink, g)).1.count ≡ sink.count + 1)
        × (is_processed number (consume memory_api p (sink, g)).2
            ≡ (is_processed number g || p.block_number == number))
        × ((consume memory_api p (sink, g)).2.txs ≡ g.txs)
  unfolding consume
  consume_lem p sink g number =
      let done = record { number = p.block_number; processed = true } ∷ [] in
      let (fine, processed) = upsert_blocks_processed done number g in
      (fine, refl, processed ∙ ground arith, upsert_blocks_txs done g)

  parse_and_consume_error :
      (p : ScannerPayload) (sink : CountingSink) (g : InMemoryGraph) (e : Error)
      → (parse_and_consume memory_api order clock p (sink, g)).0 ≡ some e
      → (parse_and_consume memory_api order clock p (sink, g)).2.blocks ≡ g.blocks
  unfolding parse_and_consume
  parse_and_consume_error p sink g e h =
      let g1 = (process memory_api order clock p g).1 in
      elim (Option-cases (process memory_api order clock p g).0.1) [
        | inr (e', failed) ↦ ground (arith, process_blocks p g)
        | inl fine ↦ elim (Option-cases (process memory_api order clock p g).0.0) [
          | inl dropped ↦ ground (arith, process_blocks p g)
          | inr (p', passed) ↦ ground (arith, (consume_lem p' sink g1 p'.block_number).0)
        ]
      ]

  scan_block_fetched :
      (client : EthClient Error) (pooled : ScannerPayload) (block : Block) (sink : CountingSink)
      (g : InMemoryGraph) (txs : List Transaction)
      → client block.number ≡ (none, txs)
      → scan_block client memory_api order clock pooled block (sink, g)
        ≡ parse_and_consume memory_api order clock
            (record { block_number = block.number; txs = txs })
            (sink, g)
  unfolding scan_block fetch source_payload
  scan_block_fetched client pooled block sink g txs found = ground arith

  parse_and_consume_ok :
      (p p' : ScannerPayload) (sink : CountingSink) (g g1 : InMemoryGraph)
      → process memory_api order clock p g ≡ ((some p', none), g1)
      → parse_and_consume memory_api order clock p (sink, g) ≡ consume memory_api p' (sink, g1)
  unfolding parse_and_consume
  parse_and_consume_ok p p' sink g g1 h = ground arith

  -- Over the in-memory graph, if the scan of one block ends in an error, the blocks of the graph are
  -- those from before it.
  pub scan_block_error :
      (client : EthClient Error) (pooled : ScannerPayload) (block : Block) (sink : CountingSink)
      (g : InMemoryGraph) (e : Error)
      → (scan_block client memory_api order clock pooled block (sink, g)).0 ≡ some e
      → (scan_block client memory_api order clock pooled block (sink, g)).2.blocks ≡ g.blocks
  unfolding scan_block
  scan_block_error client pooled block sink g e h =
      let p = source_payload pooled block in
      let txs = (client p.block_number).1 in
      ground (arith, parse_and_consume_error (record p { txs = txs }) sink g e)

  -- If the client has the block and its recipients have addresses of 40 characters, the scan of a
  -- block over a consistent in-memory graph succeeds: it is counted, and of the blocks it is the one
  -- that becomes processed; the hashes of all its transactions are stored, and no others besides the
  -- old ones; and what is stored under a hash is as before, or the record of a transaction of the
  -- block, with its hash, recipient, value and fee.
  pub scan_block_processed :
      (client : EthClient Error) (pooled : ScannerPayload) (block : Block) (sink : CountingSink)
      (g : InMemoryGraph) (txs : List Transaction) (number : ℤ) (h : Text)
      → client block.number ≡ (none, txs)
      → ((ks : List Text) (a : Text) → member a (order ks) ≡ member a ks)
      → AllValid txs
      → IsConsistent g
      → let (err, sink', g') = scan_block client memory_api order clock pooled block (sink, g) in
        (err ≡ none)
        × (sink'.count ≡ sink.count + 1)
        × (is_processed number g' ≡ (is_processed number g || block.number == number))
        × (has_key h g'.txs ≡ (in_payload h txs || has_key h g.txs))
        × ((t : Tx)
            → lookup h g'.txs ≡ some t
            → (lookup h g.txs ≡ some t) ⊎ AmongPayload block.number t txs)
  unfolding scan_block
  scan_block_processed client pooled block sink g txs number h found fair valid ok =
      let p : ScannerPayload = record { block_number = block.number; txs = txs } in
      let (passed, kept) = process_stores order clock p g fair valid ok in
      let g1 = (process memory_api order clock p g).1 in
      let (fine, counted, processed, same_txs) = consume_lem p sink g1 number in
      rw
        (
          scan_block_fetched client pooled block sink g txs found,
          parse_and_consume_ok p p sink g g1 (ap (λ r. (r, g1)) passed),
        )
        (
          fine,
          counted,
          processed
              ∙ ap
                  (λ (bs : Map ℤ Block).
                    (elim (lookup number bs) [ none ↦ false | some b ↦ b.processed ])
                    || block.number == number)
                  kept.blocks,
          ap (has_key h) same_txs ∙ kept.stored h,
          λ t at. kept.records h t (ap (lookup h) (sym same_txs) ∙ at),
        )
