-- ===== src/Bsp/Queue/Lifo.antt =====
-- bspgraph/message/memory_queue.go: what an iteration over the queue delivers.
use mathlib.Core.List.{foldl, reverse, reverse-reverse, reverse-append, append-nil, append_assoc}
use etherscan.Base.{
  ℕ, zero, suc, ◌<◌, ◌≡◌, refl, true, false, Option, some, List, [], ◌∷◌, ◌++◌, arith, ◌∙◌, ◌↔◌,
  length, length-append,
}
use etherscan.Bsp.Queue.{
  InMemoryQueue, enqueue, pending_messages, split_last, next, message, fold_messages,
}

module _ {M : Type 0} where
  split_last-append : (xs : List M) (x : M) → split_last (xs ++ x ∷ []) ≡ some (xs, x)
  unfolding split_last
  split_last-append [] x = refl
  split_last-append (y ∷ []) x = refl
  split_last-append (y ∷ z ∷ xs) x = rw (split_last-append (z ∷ xs) x)

  next-append :
      (xs : List M) (x : M) (l : Option M)
      → next (record { msgs = xs ++ x ∷ []; latched_msg = l })
        ≡ (true, record { msgs = xs; latched_msg = some x })
  unfolding next
  next-append xs x l = rw (split_last-append xs x, next)

  pub reverse-cons : (x : M) (xs : List M) → reverse (x ∷ xs) ≡ reverse xs ++ x ∷ []
  reverse-cons x xs = reverse-append (x ∷ []) xs

  pub length-reverse : (xs : List M) → length (reverse xs) ≡ length xs
  length-reverse [] = refl
  length-reverse (x ∷ xs) =
      rw (reverse-cons x xs) (omega (arith, length-append (reverse xs) (x ∷ []), length-reverse xs))

  module _ {S : Type 0} (body : S → M → S) where
    -- The queue that a loop from `reverse ys` leaves.
    abbrev drained : List M → Option M → InMemoryQueue M
    drained [] l = record { msgs = []; latched_msg = l }
    drained (y ∷ ys) l = drained ys (some y)

    fold_append :
        (n : ℕ) (xs : List M) (x : M) (l : Option M) (s : S)
        → fold_messages (suc n) body s (record { msgs = xs ++ x ∷ []; latched_msg = l })
          ≡ fold_messages n body (body s x) (record { msgs = xs; latched_msg = some x })
    unfolding fold_messages message
    fold_append n xs x l s = ground (arith, next-append xs x l)

    fold_reverse :
        (ys : List M) (l : Option M) (s : S) (fuel : ℕ)
        → length ys < fuel
        → fold_messages fuel body s (record { msgs = reverse ys; latched_msg = l })
          ≡ some (foldl body s ys, drained ys l)
    unfolding fold_messages message next split_last
    fold_reverse ys l s zero h = elim h [ ]
    fold_reverse [] l s (suc fuel) h = refl
    fold_reverse (y ∷ ys) l s (suc fuel) h = rw (reverse-cons y ys) (
        fold_append fuel (reverse ys) y l s
        ∙ fold_reverse ys (some y) (body s y) fuel (omega arith))

    msgs-drained : (ys : List M) (l : Option M) → (drained ys l).msgs ≡ []
    msgs-drained [] l = refl
    msgs-drained (y ∷ ys) l = msgs-drained ys (some y)

    -- With more fuel than messages the loop runs to its end: it folds the messages from the last
    -- one enqueued to the first, and leaves no message in the queue.
    pub fold_messages-lifo :
        (fuel : ℕ) (s : S) (q : InMemoryQueue M)
        → length q.msgs < fuel
        → (q' : InMemoryQueue M) × (fold_messages fuel body s q
            ≡ some (foldl body s (reverse q.msgs), q'))
          × (q'.msgs ≡ [])
    fold_messages-lifo fuel s q h =
        (drained ys q.latched_msg, rw reverse-reverse at folded, msgs-drained ys q.latched_msg)
      where
        ys : List M
        ys = reverse q.msgs

        folded :
            fold_messages fuel body s (record { msgs = reverse ys; latched_msg = q.latched_msg })
            ≡ some (foldl body s ys, drained ys q.latched_msg)
        folded = fold_reverse ys q.latched_msg s fuel (omega (arith, length-reverse q.msgs))

  pub enqueue_all : List M → InMemoryQueue M → InMemoryQueue M
  enqueue_all [] q = q
  enqueue_all (x ∷ xs) q = enqueue_all xs (enqueue x q)

  pub msgs-enqueue_all :
      (xs : List M) (q : InMemoryQueue M) → (enqueue_all xs q).msgs ≡ q.msgs ++ xs
  unfolding enqueue_all enqueue
  msgs-enqueue_all [] q = rw append-nil
  msgs-enqueue_all (x ∷ xs) q = rw (msgs-enqueue_all xs) (append_assoc q.msgs (x ∷ []) xs)

  -- A queue has pending messages exactly if its slice is not empty.
  pub pending_messages_iff : (q : InMemoryQueue M) → (pending_messages q ≡ false) ↔ (q.msgs ≡ [])
  unfolding pending_messages
  pending_messages_iff q = ground arith
