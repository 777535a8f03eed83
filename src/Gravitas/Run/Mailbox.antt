-- ===== src/Gravitas/Run/Mailbox.antt =====
-- gravitas/compute.go: the messages that transactions put into the buffers of superstep 2.
use mathlib.Core.Option
use mathlib.Core.List.{append-nil, append_assoc}
use etherscan.Base.{
  ◌≡◌, refl, sym, ap, ◌∙◌, Bool, true, false, Option, none, some, List, [], ◌∷◌, ◌++◌, ◌==◌,
  if◌then◌else◌, All, map_self,
}
use etherscan.Base.Text.{Text, text_eq}
use etherscan.Base.Map.{Map, keys, lookup, alter, has_key, lookup-alter, keys-alter}
use etherscan.Bsp.Queue.{enqueue}
use etherscan.Bsp.Graph.{deliver}
use etherscan.TxGraph.Types.{Tx}
use etherscan.Gravitas.Float.{BigFloat}
use etherscan.Gravitas.Compute.{TxMessage, ScoreVertex}

-- All transactions go to keys of the map.

abbrev pub HasRecipients : {W : Type 0} → Map Text W → List Tx → Type 0
HasRecipients m = All (λ tx. has_key tx.to m ≡ true)

pub HasRecipients-keys :
    {W : Type 0} (m m' : Map Text W) (txs : List Tx)
    → ((k : Text) → has_key k m' ≡ has_key k m)
    → HasRecipients m txs
    → HasRecipients m' txs
HasRecipients-keys m m' [] e h = tt
HasRecipients-keys m m' (tx ∷ txs) e h = (e tx.to ∙ h.0, HasRecipients-keys m m' txs e h.1)

module _ {F : Type 0} where
  -- The messages are put at the end of the buffer 0.
  abbrev pub receive : List (TxMessage F) → ScoreVertex F → ScoreVertex F
  receive msgs v = record v { queue0 = record (v.queue0) { msgs = v.queue0.msgs ++ msgs } }

  pub receive-nil : (v : ScoreVertex F) → receive [] v ≡ v
  receive-nil v =
      ap (λ (ms : List (TxMessage F)). record v { queue0 = record (v.queue0) { msgs = ms } })
        (append-nil v.queue0.msgs)

  pub receive-receive :
      (xs ys : List (TxMessage F)) (v : ScoreVertex F)
      → receive ys (receive xs v) ≡ receive (xs ++ ys) v
  receive-receive xs ys v =
      ap (λ (ms : List (TxMessage F)). record v { queue0 = record (v.queue0) { msgs = ms } })
        (append_assoc v.queue0.msgs xs ys)

  pub deliver-eq-receive :
      (msg : TxMessage F) (v : ScoreVertex F) → deliver 0 msg v ≡ receive (msg ∷ []) v
  unfolding deliver enqueue
  deliver-eq-receive msg v = refl

module _ (fl : BigFloat) where
  open fl use {Carrier, set_int}

  -- The message that a transaction sends.
  abbrev pub message_of : Tx → TxMessage Carrier
  message_of tx = record { value = set_int tx.value }

  -- The messages of a list of transactions for the vertex `k`.
  abbrev pub incoming : Text → List Tx → List (TxMessage Carrier)
  incoming k [] = []
  incoming k (tx ∷ txs) = if tx.to == k then message_of tx ∷ incoming k txs else incoming k txs

  -- The vertices after the messages of a list of transactions.
  abbrev pub post : List Tx → Map Text (ScoreVertex Carrier) → Map Text (ScoreVertex Carrier)
  post [] m = m
  post (tx ∷ txs) m = post txs (alter tx.to (deliver 0 (message_of tx)) m)

  pub keys-post : (txs : List Tx) (m : Map Text (ScoreVertex Carrier)) → keys (post txs m) ≡ keys m
  keys-post [] m = refl
  keys-post (tx ∷ txs) m =
      keys-post txs (alter tx.to (deliver 0 (message_of tx)) m)
      ∙ keys-alter tx.to (deliver 0 (message_of tx)) m

  map-receive-if :
      (b : Bool) (msg : TxMessage Carrier) (msgs : List (TxMessage Carrier))
      (o : Option (ScoreVertex Carrier))
      → Option.map (receive msgs) (if b then Option.map (deliver 0 msg) o else o)
        ≡ Option.map (receive (if b then msg ∷ msgs else msgs)) o
  map-receive-if true msg msgs none = refl
  map-receive-if true msg msgs (some v) =
      ap some (rw (deliver-eq-receive msg v) (receive-receive (msg ∷ []) msgs v))
  map-receive-if false msg msgs o = refl

  pub lookup-post :
      (k : Text) (txs : List Tx) (m : Map Text (ScoreVertex Carrier))
      → lookup k (post txs m) ≡ Option.map (receive (incoming k txs)) (lookup k m)
  lookup-post k [] m = sym (map_self (receive []) receive-nil (lookup k m))
  lookup-post k (tx ∷ txs) m =
      rw (lookup-post k txs, lookup-alter)
        (map-receive-if (tx.to == k) (message_of tx) (incoming k txs) (lookup k m))
