-- ===== src/Gravitas/Run/Done.antt =====
-- gravitas/compute.go: the vertices that have nothing left to do in superstep 3.
use mathlib.Core.Option
use mathlib.Core.Option.{map-map}
use etherscan.Base.{
  ◌≡◌, ◌≢◌, refl, Bool, true, false, Option, none, some, List, [], arith, inl, inr, Option-cases,
}
use etherscan.Base.Text.{Text, text_eq}
use etherscan.Base.Map.{Map, lookup, has_key}
use etherscan.Bsp.Queue.{pending_messages}
use etherscan.Bsp.Graph.{msg_queue}
use etherscan.Bsp.Step.{should_run}
use etherscan.Gravitas.Run.Mailbox.{receive}
use etherscan.Gravitas.Run.Sending.{paid}
use etherscan.Gravitas.Float.{BigFloat}
use etherscan.Gravitas.Compute.{TxMessage, ScoreVertex}
use etherscan.Gravitas.Run.Collecting.{collect}

module _ (fl : BigFloat) where
  open fl use {Carrier}

  -- A vertex that superstep 3 leaves alone.
  abbrev pub IsDone : Map Text (ScoreVertex Carrier) → Type 0
  IsDone m =
      (k : Text) (v : ScoreVertex Carrier)
      → lookup k m ≡ some v
      → (v.active ≡ false) × (v.queue1.msgs ≡ [])

  pub idle_at :
      (m : Map Text (ScoreVertex Carrier))
      → IsDone m
      → (i : Text) → should_run 1 (lookup i m) ≡ false
  unfolding should_run msg_queue pending_messages
  idle_at m done i = elim (Option-cases (lookup i m)) [
    | inl e ↦ ground (arith, e)
    | inr (v, e) ↦ ground (arith, e, done i v e)
  ]

  -- A test that agrees with the keys of the map is true wherever there is a vertex.
  pub map_at_keys :
      (f : Bool → ScoreVertex Carrier → ScoreVertex Carrier) (b : Bool)
      (o : Option (ScoreVertex Carrier))
      → (o ≢ none → b ≡ true)
      → Option.map (f b) o ≡ Option.map (f true) o
  map_at_keys f b none h = refl
  map_at_keys f b (some v) h = rw (h (λ e. cc))

  pub has_key_of_ne :
      (k : Text) (m : Map Text (ScoreVertex Carrier)) → lookup k m ≢ none → has_key k m ≡ true
  unfolding has_key
  has_key_of_ne k m h = ground (arith, Option-cases (lookup k m))

  pub collected-IsDone :
      (m m' : Map Text (ScoreVertex Carrier))
      → IsDone m
      → ((k : Text) → lookup k m' ≡ Option.map (collect fl) (lookup k m))
      → IsDone m'
  unfolding collect
  collected-IsDone m m' done at_k k v e = elim (Option-cases (lookup k m)) [
    | inl none_at ↦ ground (arith, at_k k)
    | inr (w, some_at) ↦ ground (arith, at_k k, done k w some_at)
  ]

  -- The score of a vertex, from the messages that it was sent.
  unfoldable pub scored : List (TxMessage Carrier) → ScoreVertex Carrier → ScoreVertex Carrier
  scored msgs v = collect fl (paid fl (receive msgs v))
