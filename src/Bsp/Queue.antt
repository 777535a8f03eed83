-- ===== src/Bsp/Queue.antt =====
-- bspgraph/message/memory_queue.go: the in-memory message queue, which is its own iterator.
pub mod Lifo
use etherscan.Base.{
  ℕ, zero, suc, Bool, true, false, not, Option, none, some, List, [], ◌∷◌, ◌++◌, length, nat_eqb,
}

-- `msgs` is the slice, in its order; the mutex makes each method atomic, and is not modelled.

pub record InMemoryQueue (M : Type 0) : Type 0 where
  pub msgs : List M
  pub latched_msg : Option M

module _ {M : Type 0} where
  unfoldable pub new_in_memory_queue : InMemoryQueue M
  new_in_memory_queue = record { msgs = []; latched_msg = none }

  unfoldable pub enqueue : M → InMemoryQueue M → InMemoryQueue M
  enqueue msg q = record q { msgs = q.msgs ++ msg ∷ [] }

  unfoldable pub pending_messages : InMemoryQueue M → Bool
  pending_messages q = not (nat_eqb (length q.msgs) 0)

  unfoldable pub discard_messages : InMemoryQueue M → InMemoryQueue M
  discard_messages q = record q { msgs = []; latched_msg = none }

  -- The slice without its last element, and that element.
  unfoldable pub split_last : List M → Option (List M × M)
  split_last [] = none
  split_last (x ∷ []) = some ([], x)
  split_last (x ∷ y ∷ xs) = elim (split_last (y ∷ xs)) [
    | none ↦ none
    | some (ys, z) ↦ some (x ∷ ys, z)
  ]

  -- Next dequeues from the tail of the slice.
  unfoldable pub next : InMemoryQueue M → Bool × InMemoryQueue M
  next q = elim (split_last q.msgs) [
    | none ↦ (false, q)
    | some (rest, msg) ↦ (true, record { msgs = rest; latched_msg = some msg })
  ]

  unfoldable pub message : InMemoryQueue M → Option M
  message q = q.latched_msg

  -- `for it.Next() { … it.Message() … }`, with the loop's state `S`. The fuel bounds the rounds;
  -- `none` is the end of the fuel, or a message that is nil.
  unfoldable pub fold_messages :
      {S : Type 0} → ℕ → (S → M → S) → S → InMemoryQueue M → Option (S × InMemoryQueue M)
  fold_messages zero body s q = none
  fold_messages (suc fuel) body s q =
      let (more, q') = next q in
      elim more [
        | false ↦ some (s, q')
        | true ↦ elim (message q') [
          | none ↦ none
          | some msg ↦ fold_messages fuel body (body s msg) q'
        ]
      ]
