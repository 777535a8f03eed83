-- ===== src/BlockInserter/Inserted.antt =====
-- blockinserter/block_inserter.go: what Start leaves in the in-memory graph.
use etherscan.Base.{◌≡◌, refl, ◌∙◌, Bool, false, ◌||◌, none, List, [], ◌∷◌, arith, ◌==◌, ℤ, int_eq}
use etherscan.Base.Map.{has_key}
use etherscan.TxGraph.Types.{Block, Error}
use etherscan.TxGraph.Memory.{InMemoryGraph, upsert_block, upsert_blocks}
use etherscan.TxGraph.Memory.Interface.{memory_api}
use etherscan.TxGraph.Memory.Blocks.{is_processed, upsert_block_lem}
use etherscan.BlockInserter.{
  Event, header, subscription_failed, done, unprocessed, receive_headers, start,
}

-- The block is that of a header that was received.

abbrev pub is_received : ℤ → List (Event Error) → Bool
is_received number [] = false
is_received number (done ∷ events) = false
is_received number (subscription_failed e ∷ events) = false
is_received number (header n ∷ events) = n == number || is_received number events

upsert_one :
    (b : Block) (g : InMemoryGraph) → upsert_blocks (b ∷ []) g ≡ (none, (upsert_block b g).1)
unfolding upsert_blocks
upsert_one b g = ground (arith, (upsert_block_lem b b.number g).0)

receive_headers_cons :
    (n : ℤ) (events : List (Event Error)) (g : InMemoryGraph)
    → receive_headers memory_api (header n ∷ events) g
      ≡ receive_headers memory_api events (upsert_block (unprocessed n) g).1
unfolding receive_headers
receive_headers_cons n events g = ground (arith, upsert_one (unprocessed n) g)

-- Start adds the blocks of the headers that it receives, to those that are known, and makes no block
-- processed or unprocessed.
pub start_lem :
    (events : List (Event Error)) (number : ℤ) (g : InMemoryGraph)
    → let g' = (start memory_api none events g).1 in
      (has_key number g'.blocks ≡ (is_received number events || has_key number g.blocks))
      × (is_processed number g' ≡ is_processed number g)
unfolding start receive_headers
start_lem [] number g = (refl, refl)
start_lem (done ∷ events) number g = (refl, refl)
start_lem (subscription_failed e ∷ events) number g = (refl, refl)
start_lem (header n ∷ events) number g =
    let g1 = (upsert_block (unprocessed n) g).1 in
    let (_, processed, known) = upsert_block_lem (unprocessed n) number g in
    let (rest, same) = start_lem events number g1 in
    rw (receive_headers_cons n events g)
      (rest ∙ ground (arith, known), same ∙ ground (arith, processed))
