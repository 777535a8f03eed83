-- ===== src/TxGraph/Memory/Blocks.antt =====
-- txgraph/store/memory/memory.go: what becomes of the blocks.
use etherscan.Base.{
  ◌≡◌, refl, ◌∙◌, Bool, false, ◌&&◌, ◌||◌, none, some, List, [], ◌∷◌, arith, ◌==◌, ==_iff, ==_refl,
  ℤ, int_eq,
}
use etherscan.Base.Map.{lookup, has_key, lookup-insert, lookup-alter}
use etherscan.TxGraph.Types.{Block}
use etherscan.TxGraph.Memory.{InMemoryGraph, upsert_block, upsert_blocks}

-- The block has a number and was processed.

abbrev pub is_processed : ℤ → InMemoryGraph → Bool
is_processed number g = elim (lookup number g.blocks) [ none ↦ false | some b ↦ b.processed ]

-- UpsertBlocks never fails, and of the entry for a number it changes one thing: a missing block is
-- added as it is given, and an existing one is marked as processed if the new one is.
pub upsert_block_lem :
    (block : Block) (number : ℤ) (g : InMemoryGraph)
    → ((upsert_block block g).0 ≡ none)
      × (is_processed number (upsert_block block g).1
          ≡ (is_processed number g || (block.number == number && block.processed)))
      × (has_key number (upsert_block block g).1.blocks
          ≡ (block.number == number || has_key number g.blocks))
unfolding upsert_block has_key
upsert_block_lem block number g = ground (
  arith,
  ==_iff block.number number,
  ==_refl number,
  lookup-insert block.number number block g.blocks,
  lookup-alter block.number number (λ b. record b { processed = block.processed }) g.blocks,
)

-- One of the blocks has the number and is processed.
abbrev pub any_processed : ℤ → List Block → Bool
any_processed number [] = false
any_processed number (b ∷ bs) = (b.number == number && b.processed) || any_processed number bs

upsert_blocks_cons :
    (b : Block) (bs : List Block) (g : InMemoryGraph)
    → upsert_blocks (b ∷ bs) g ≡ upsert_blocks bs (upsert_block b g).1
unfolding upsert_blocks
upsert_blocks_cons b bs g = ground (arith, (upsert_block_lem b b.number g).0)

-- After UpsertBlocks, which never fails, a block is processed exactly if it was before or one of the
-- given blocks says so; in particular it never becomes unprocessed again.
pub upsert_blocks_processed :
    (bs : List Block) (number : ℤ) (g : InMemoryGraph)
    → ((upsert_blocks bs g).0 ≡ none)
      × (is_processed number (upsert_blocks bs g).1
          ≡ (is_processed number g || any_processed number bs))
unfolding upsert_blocks
upsert_blocks_processed [] number g = (refl, ground arith)
upsert_blocks_processed (b ∷ bs) number g =
    let (fine, rest) = upsert_blocks_processed bs number (upsert_block b g).1 in
    rw (upsert_blocks_cons b bs g) (fine, rest ∙ ground (arith, upsert_block_lem b number g))
