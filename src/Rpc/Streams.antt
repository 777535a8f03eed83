-- ===== src/Rpc/Streams.antt =====
-- txgraphapi/client.go, server.go, scorestoreapi/client.go, server.go: the streams of messages. The
-- iterators of the two clients differ in the conversion of a message alone, and so do the loops of
-- the two servers.
pub mod Delivery
use mathlib.Core.Option
use etherscan.Base.{
  ℕ, zero, suc, ◌<◌, ◌≡◌, refl, ◌∙◌, ap, Bool, true, false, Option, none, some, List, [], ◌∷◌, ◌++◌,
  map, length, arith, All,
}

-- A value with a nil error, or an error.
pub data Result (E X : Type 0) : Type 0 where
  ok : X → Result E X
  error : E → Result E X

-- A conversion that cannot fail.
abbrev pub total : {E X Y : Type 0} → (X → Y) → X → Result E Y
total f x = ok (f x)

-- A loop that converts a list of items; the first failure ends it.
unfoldable pub convert_all : {E X Y : Type 0} → (X → Result E Y) → List X → Result E (List Y)
convert_all f [] = ok []
convert_all f (x ∷ xs) = elim (f x) [
  | error e ↦ error e
  | ok y ↦ elim (convert_all f xs) [ error e ↦ error e | ok ys ↦ ok (y ∷ ys) ]
]

-- What Recv returns: io.EOF is told apart from the other errors.
pub data Received (E M : Type 0) : Type 0 where
  message : M → Received E M
  eof : Received E M
  failure : E → Received E M

-- `S` is the state of the stream. `cancelled` says that cancelFn was called.
pub record RpcIterator (S E X : Type 0) : Type 0 where
  pub stream : S
  pub next : Option X
  pub last_err : Option E
  pub cancelled : Bool

module _ {S E X : Type 0} where
  abbrev pub new_iterator : S → RpcIterator S E X
  new_iterator stream = record { stream = stream; next = none; last_err = none; cancelled = false }

  -- Close
  unfoldable pub close : RpcIterator S E X → RpcIterator S E X
  close it = record it { cancelled = true }

  -- `for it.Next() { items = append(items, it.X()) }`, and then it.Error(). `none` is the end of the
  -- fuel, or an item that is nil.
  unfoldable pub collect :
      (RpcIterator S E X → Bool × RpcIterator S E X)
      → ℕ
      → RpcIterator S E X
      → Option (List X × Option E)
  collect next zero it = none
  collect next (suc fuel) it =
      let (more, it') = next it in
      elim more [
        | false ↦ some ([], it'.last_err)
        | true ↦ elim it'.next [
          | none ↦ none
          | some x ↦ elim (collect next fuel it') [
            | none ↦ none
            | some (xs, err) ↦ some (x ∷ xs, err)
          ]
        ]
      ]

module _ {S E M X : Type 0} where
  -- Next, with the stream's Recv and the conversion of a message.
  unfoldable pub advance :
      (S → Received E M × S) → (M → Result E X) → RpcIterator S E X → Bool × RpcIterator S E X
  advance recv convert it =
      let (res, stream) = recv it.stream in
      elim res [
        | failure e ↦ (false, record it { stream = stream; last_err = some e; cancelled = true })
        | eof ↦ (false, record it { stream = stream; cancelled = true })
        | message m ↦ elim (convert m) [
          | error e ↦ (false, record it { stream = stream; last_err = some e; cancelled = true })
          | ok x ↦ (true, record it { stream = stream; next = some x })
        ]
      ]

  -- The loop of a server over an iterator of the store, the items and the error of which are given;
  -- here `S` is the state of the stream that Send sends to.
  unfoldable pub serve :
      (X → Result E M) → (M → S → Option E × S) → List X → Option E → S → Option E × S
  serve convert send [] err s = (err, s)
  serve convert send (x ∷ xs) err s = elim (convert x) [
    | error e ↦ (some e, s)
    | ok m ↦
        let (failed, s') = send m s in
        elim failed [ some e ↦ (some e, s') | none ↦ serve convert send xs err s' ]
  ]

-- The outcome of a method as it comes through a transport that makes `status` of errors.
abbrev pub with_status : {E G : Type 0} → (E → E) → Option E × G → Option E × G
with_status status (err, g) = (Option.map status err, g)

-- A connection that loses nothing: the messages that were sent, in their order, and then the
-- handler's error.
module _ {E M : Type 0} where
  abbrev pub send_to : M → List M → Option E × List M
  send_to m ms = (none, ms ++ m ∷ [])

  abbrev pub receive : List M × Option E → Received E M × (List M × Option E)
  receive ([], none) = (eof, ([], none))
  receive ([], some e) = (failure e, ([], some e))
  receive (m ∷ ms, err) = (message m, (ms, err))
