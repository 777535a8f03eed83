-- ===== src/TxGraph/Memory/Iterators.antt =====
-- txgraph/store/memory/iterator.go: the iterators of the in-memory store, a list and an index. The list
-- has the items as they were when it was made: a block that becomes processed during the iteration, which
-- the pointers of the code show, stays as it was here. The
-- iterators for transactions and for wallets differ in nothing but the type of their items.
pub mod Drain
use etherscan.Base.{
  ℕ, zero, suc, ◌+◌, ◌-◌, Bool, true, false, Option, none, some, List, [], ◌∷◌, length, get_elem?,
  leb, if◌then◌else◌,
}
use etherscan.TxGraph.Types.{Block, Error}

pub record TxIterator (X : Type 0) : Type 0 where
  pub txs : List X
  pub cur_index : ℕ

module _ {X : Type 0} where
  unfoldable pub next : TxIterator X → Bool × TxIterator X
  next i =
      if leb (length i.txs) i.cur_index
      then (false, i)
      else (true, record i { cur_index = i.cur_index + 1 })

  -- `none` is the panic of a call before the first Next.
  unfoldable pub tx : TxIterator X → Option X
  tx i = elim i.cur_index [ zero ↦ none | suc n ↦ get_elem? i.txs n ]

  -- `for it.Next() { list = append(list, it.Tx()) }`; `none` is a panic or the end of the fuel.
  unfoldable pub drain : ℕ → TxIterator X → Option (List X)
  unfolding next tx
  drain zero i = none
  drain (suc fuel) i =
      let (more, i') = next i in
      elim more [
        | false ↦ some []
        | true ↦ elim (tx i') [
          | none ↦ none
          | some x ↦ elim (drain fuel i') [ none ↦ none | some xs ↦ some (x ∷ xs) ]
        ]
      ]

-- `last_err` is never set.
pub record BlockIterator : Type 0 where
  pub blocks : List Block
  pub cur_index : ℕ
  pub last_err : Option Error

unfoldable pub next_block : BlockIterator → Bool × BlockIterator
next_block i = elim i.last_err [
  | some e ↦ (false, i)
  | none ↦
      if leb (length i.blocks) i.cur_index
      then (false, i)
      else (true, record i { cur_index = i.cur_index + 1 })
]

unfoldable pub block : BlockIterator → Option Block
block i = elim i.cur_index [ zero ↦ none | suc n ↦ get_elem? i.blocks n ]
