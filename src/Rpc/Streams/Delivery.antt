-- ===== src/Rpc/Streams/Delivery.antt =====
-- txgraphapi/, scorestoreapi/: what a client reads of the stream that a server sends.
use mathlib.Core.List.{append_assoc, append-nil, map-id}
use mathlib.Core.Option
use etherscan.Base.{
  map, ℕ, zero, suc, ◌<◌, ◌≡◌, refl, ◌∙◌, sym, ap, Option, none, some, List, [], ◌∷◌, ◌++◌, length,
  arith, All,
}
use etherscan.Rpc.Streams.{
  Result, ok, error, RpcIterator, new_iterator, advance, collect, serve, send_to, receive,
}

module _ {E M X : Type 0} where
  -- The items of a list of messages up to the first one that cannot be converted, and the error:
  -- that of the conversion, or the given one.
  abbrev pub read_stream : (M → Result E X) → List M → Option E → List X × Option E
  read_stream convert [] err = ([], err)
  read_stream convert (m ∷ ms) err = elim (convert m) [
    | error e ↦ ([], some e)
    | ok x ↦ let (xs, err') = read_stream convert ms err in (x ∷ xs, err')
  ]

  collect_rest :
      (convert : M → Result E X) (fuel : ℕ) (ms : List M) (err : Option E)
      (it : RpcIterator (List M × Option E) E X)
      → it.stream ≡ (ms, err)
      → it.last_err ≡ none
      → length ms < fuel
      → collect (advance receive convert) fuel it ≡ some (read_stream convert ms err)
  unfolding collect advance
  collect_rest convert zero ms err it at_ms fine h = absurd (omega arith)
  collect_rest convert (suc fuel) [] err it at_ms fine h = ground arith
  collect_rest convert (suc fuel) (m ∷ ms) err it at_ms fine h =
      ground (arith, collect_rest convert fuel ms err (advance receive convert it).1)

  -- A loop over an iterator of the client ends, and sees the items of the messages up to the first
  -- one that cannot be converted. One unit of fuel for each message and one to end is enough.
  pub collect_lem :
      (convert : M → Result E X) (fuel : ℕ) (ms : List M) (err : Option E)
      → length ms < fuel
      → collect (advance receive convert) fuel (new_iterator (ms, err))
        ≡ some (read_stream convert ms err)
  collect_lem convert fuel ms err h =
      collect_rest convert fuel ms err (new_iterator (ms, err)) refl refl h

-- The conversions of an item to a message and back make it `f x`.
abbrev pub ArrivesAs : {E X M : Type 0} → (X → Result E M) → (M → Result E X) → (X → X) → X → Type 0
ArrivesAs {E} {X} {M} to from f x = (m : M) × (to x ≡ ok m) × (from m ≡ ok (f x))

abbrev pub RoundTrips : {E X M : Type 0} → (X → Result E M) → (M → Result E X) → X → Type 0
RoundTrips {E} {X} {M} to from x = (m : M) × (to x ≡ ok m) × (from m ≡ ok x)

module _ {E M X : Type 0} (to : X → Result E M) (from : M → Result E X) where
  -- The messages of the items.
  abbrev pub messages : List X → List M
  messages [] = []
  messages (x ∷ xs) = elim (to x) [ error e ↦ [] | ok m ↦ m ∷ messages xs ]

  module _ (f : X → X) where
    pub serve-messages :
        (xs : List X) (err : Option E) (ms : List M)
        → All (ArrivesAs to from f) xs
        → serve to send_to xs err ms ≡ (err, ms ++ messages xs)
    unfolding serve
    serve-messages [] err ms all = ap (λ l. (err, l)) (sym (append-nil ms))
    serve-messages (x ∷ xs) err ms ((m, sent, _), all) =
        ground
          (arith, serve-messages xs err (ms ++ m ∷ []) all, append_assoc ms (m ∷ []) (messages xs))

    read_messages :
        (xs : List X) (err : Option E)
        → All (ArrivesAs to from f) xs
        → read_stream from (messages xs) err ≡ (map f xs, err)
    read_messages [] err all = refl
    read_messages (x ∷ xs) err ((m, sent, received), all) = ground (arith, read_messages xs err all)

    length-messages :
        (xs : List X) → All (ArrivesAs to from f) xs → length (messages xs) ≡ length xs
    length-messages [] all = refl
    length-messages (x ∷ xs) ((m, sent, _), all) = ground (arith, length-messages xs all)

    -- A loop over the messages of the items.
    pub collect-messages :
        (fuel : ℕ) (xs : List X) (err : Option E)
        → All (ArrivesAs to from f) xs
        → length xs < fuel
        → collect (advance receive from) fuel (new_iterator (messages xs, err))
          ≡ some (map f xs, err)
    collect-messages fuel xs err all h =
        collect_lem from fuel (messages xs) err (omega (arith, length-messages xs all))
        ∙ ap some (read_messages xs err all)

  -- A client that loops over what a server streams to it sees the items of the server's iterator, in
  -- their order, and then what `status` makes of its error, if the conversions take each item back to
  -- itself.
  pub collect-serve :
      (status : E → E) (fuel : ℕ) (xs : List X) (err : Option E)
      → All (RoundTrips to from) xs
      → length xs < fuel
      → let (failed, ms) = serve to send_to xs err [] in
        collect (advance receive from) fuel (new_iterator (ms, Option.map status failed))
        ≡ some (xs, Option.map status err)
  collect-serve status fuel xs err all h = rw (serve-messages (λ x. x) xs err [] all) (
      collect-messages (λ x. x) fuel xs (Option.map status err) all h
      ∙ ap (λ l. some (l, Option.map status err)) (map-id xs))
