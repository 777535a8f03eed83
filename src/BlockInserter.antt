-- ===== src/BlockInserter.antt =====
-- blockinserter/block_inserter.go: adds the numbers of new blocks to the transaction graph.
-- The number of a header is taken to fit an int64: of others math/big says nothing. What is wrapped around
-- an error is left out.
pub mod Inserted
mod Examples
use etherscan.Base.{Option, none, some, List, [], ◌∷◌, false, ℤ}
use etherscan.TxGraph.Types.{Block}
use etherscan.TxGraph.Api.{GraphApi}

-- What Start meets in its select: a header with the number of its block, an error of the
-- subscription, or the end of the context.
pub data Event (E : Type 0) : Type 0 where
  header : ℤ → Event E
  subscription_failed : E → Event E
  done : Event E

abbrev pub unprocessed : ℤ → Block
unprocessed number = record { number = number; processed = false }

-- The loop over the events up to a return.
unfoldable pub receive_headers : {G E : Type 0} → GraphApi G E → List (Event E) → G → Option E × G
receive_headers api [] g = (none, g)
receive_headers api (done ∷ events) g = (none, g)
receive_headers api (subscription_failed e ∷ events) g = (some e, g)
receive_headers api (header number ∷ events) g =
    let (err, g') = api.upsert_blocks (unprocessed number ∷ []) g in
    let rest = receive_headers api events g' in elim err [ some e ↦ (some e, g') | none ↦ rest ]

-- `subscribed` is the error of SubscribeNewHead.
unfoldable pub start : {G E : Type 0} → GraphApi G E → Option E → List (Event E) → G → Option E × G
unfolding receive_headers
start api subscribed events g = elim subscribed [
  | some e ↦ (some e, g)
  | none ↦ receive_headers api events g
]
