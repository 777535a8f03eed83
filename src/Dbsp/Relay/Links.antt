-- ===== src/Dbsp/Relay/Links.antt =====
-- dbspgraph/: what holds of the payloads on the way from and to one worker.
use etherscan.Base.{
  ℕ, suc, ◌+◌, ◌≤◌, ◌≡◌, refl, Bool, true, false, Option, none, List, [], ◌∷◌, ◌++◌, arith, ◌⊎◌,
  ◌%◌, ◌/◌, All, pos,
}
use etherscan.Partition.Range.{Range, partition_for_addr}
use etherscan.Dbsp.Barrier.{Phase}
use etherscan.Dbsp.Relay.{
  RelayMessage, Payload, relay_message, step, Handler, receiving, entered, answering, Delivery,
  Link,
}
use etherscan.Dbsp.Relay.Numbering.{joined_in, waits_in, left_in}

abbrev pub answers : {S : Type 0} → Handler S → ℕ
answers receiving = 0
answers entered = 0
answers (answering s) = 1

abbrev pub in_wait : {S : Type 0} → Handler S → ℕ
in_wait receiving = 0
in_wait entered = 1
in_wait (answering s) = 0

-- The partition of worker `j` has the destination, and the sender was in a compute function.
abbrev pub IsFor : {W : Type 0} → Range → ℕ → RelayMessage W → Type 0
IsFor r j m = (m.sent_in % 3 ≡ 1) × (partition_for_addr m.destination r ≡ (pos j, none))

abbrev pub IsTimely : {M W : Type 0} → Range → ℕ → Delivery M W → Type 0
IsTimely r j d =
    (d.at / 3 ≡ d.relayed.sent_in / 3)
    × (partition_for_addr d.relayed.destination r ≡ (pos j, none))

module _ {W S : Type 0} where
  abbrev pub count_steps : List (Payload W S) → ℕ
  count_steps [] = 0
  count_steps (relay_message m ∷ q) = count_steps q
  count_steps (step s ∷ q) = suc (count_steps q)

  -- The messages on the way to a worker: none was sent before the barrier that the worker will have
  -- passed when it receives it, and none after `hi` barriers.
  abbrev pub Timed : Range → ℕ → ℕ → ℕ → List (Payload W S) → Type 0
  Timed r j lo hi [] = Unit {0}
  Timed r j lo hi (relay_message m ∷ q) =
      (lo ≤ m.sent_in) × (m.sent_in ≤ hi) × IsFor r j m × Timed r j lo hi q
  Timed r j lo hi (step s ∷ q) = Timed r j (suc lo) hi q

  -- The payloads on the way from a worker that has passed `t` barriers: a step is the last of them.
  abbrev pub Outgoing : ℕ → Bool → List (Payload W S) → Type 0
  Outgoing t blocked [] = Unit {0}
  Outgoing t blocked (relay_message m ∷ q) =
      (m.sent_in ≡ t) × (m.sent_in % 3 ≡ 1) × Outgoing t blocked q
  Outgoing t blocked (step s ∷ q) = (blocked ≡ true) × (q ≡ [])

  pub Timed-relay :
      (r : Range) (j lo hi : ℕ) (m : RelayMessage W) (q : List (Payload W S))
      → Timed r j lo hi q
      → lo + count_steps q ≤ m.sent_in
      → m.sent_in ≤ hi
      → IsFor r j m
      → Timed r j lo hi (q ++ relay_message m ∷ [])
  Timed-relay r j lo hi m [] t above below fits = (omega (arith, above), below, fits, tt)
  Timed-relay r j lo hi m (relay_message m' ∷ q) (a, b, c, t) above below fits =
      (a, b, c, Timed-relay r j lo hi m q t above below fits)
  Timed-relay r j lo hi m (step s ∷ q) t above below fits =
      Timed-relay r j (suc lo) hi m q t (omega (arith, above)) below fits

  pub Timed-step :
      (r : Range) (j lo hi : ℕ) (s : S) (q : List (Payload W S))
      → Timed r j lo hi q
      → Timed r j lo hi (q ++ step s ∷ [])
  Timed-step r j lo hi s [] t = tt
  Timed-step r j lo hi s (relay_message m ∷ q) (a, b, c, t) = (a, b, c, Timed-step r j lo hi s q t)
  Timed-step r j lo hi s (step s' ∷ q) t = Timed-step r j (suc lo) hi s q t

  pub Timed-raise :
      (r : Range) (j lo hi hi' : ℕ) (q : List (Payload W S))
      → hi ≤ hi'
      → Timed r j lo hi q
      → Timed r j lo hi' q
  Timed-raise r j lo hi hi' [] le t = tt
  Timed-raise r j lo hi hi' (relay_message m ∷ q) le (a, b, c, t) =
      (a, omega (arith, b, le), c, Timed-raise r j lo hi hi' q le t)
  Timed-raise r j lo hi hi' (step s ∷ q) le t = Timed-raise r j (suc lo) hi hi' q le t

  pub count_steps-relay :
      (m : RelayMessage W) (q : List (Payload W S))
      → count_steps (q ++ relay_message m ∷ []) ≡ count_steps q
  count_steps-relay m [] = refl
  count_steps-relay m (relay_message m' ∷ q) = count_steps-relay m q
  count_steps-relay m (step s ∷ q) = omega (arith, count_steps-relay m q)

  pub count_steps-step :
      (s : S) (q : List (Payload W S)) → count_steps (q ++ step s ∷ []) ≡ suc (count_steps q)
  count_steps-step s [] = refl
  count_steps-step s (relay_message m' ∷ q) = count_steps-step s q
  count_steps-step s (step s' ∷ q) = omega (arith, count_steps-step s q)

  pub Outgoing-relay :
      (t : ℕ) (m : RelayMessage W) (q : List (Payload W S))
      → m.sent_in ≡ t
      → m.sent_in % 3 ≡ 1
      → Outgoing t false q
      → Outgoing t false (q ++ relay_message m ∷ [])
  Outgoing-relay t m [] e c o = (e, c, tt)
  Outgoing-relay t m (relay_message m' ∷ q) e c (a, b, o) = (a, b, Outgoing-relay t m q e c o)
  Outgoing-relay t m (step s ∷ q) e c (a, o) = cc

  pub Outgoing-step :
      (t : ℕ) (s : S) (q : List (Payload W S))
      → Outgoing t false q
      → Outgoing t true (q ++ step s ∷ [])
  Outgoing-step t s [] o = (refl, refl)
  Outgoing-step t s (relay_message m' ∷ q) (a, b, o) = (a, b, Outgoing-step t s q o)
  Outgoing-step t s (step s' ∷ q) (a, o) = cc

module _ {M W S : Type 0} where
  -- The link of worker `j` in episode `e`, where `p` is the phase of its handler in the barrier.
  pub record LinkOk (r : Range) (e : ℕ) (p : Option (Phase S)) (j : ℕ) (l : Link M W S)
      : Type 0 where
    pub numbers : l.passed + count_steps l.to_worker + answers l.handler ≡ e + left_in p
    pub waiting_too : in_wait l.handler ≡ waits_in p
    pub outgoing : Outgoing l.passed l.blocked l.to_master
    pub incoming : Timed r j l.passed (e + joined_in p) l.to_worker
    pub single : count_steps l.to_worker + answers l.handler + in_wait l.handler ≤ 1
    pub settled :
        (count_steps l.to_worker + answers l.handler + in_wait l.handler ≡ 0)
        ⊎ ((l.blocked ≡ true) × (l.to_master ≡ []))
    pub timely : All (IsTimely r j) l.delivered
