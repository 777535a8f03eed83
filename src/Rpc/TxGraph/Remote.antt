-- ===== src/Rpc/TxGraph/Remote.antt =====
-- txgraphapi/: a client behind a connection to a server around a graph is that graph.
use mathlib.Core.Option
use etherscan.Base.{
  Bool, ℤ, ℕ, ◌<◌, ◌≡◌, refl, ap₂, ap, true, Option, none, some, List, [], ◌∷◌, map, length, arith,
  All,
}
use etherscan.Base.Text.{Text}
use etherscan.Base.Decimal.{to_string, set_string-to_string}
use etherscan.TxGraph.Types.{Block, Tx, Wallet}
use etherscan.TxGraph.Api.{GraphApi, GraphReader, Stream}
use etherscan.Rpc.Words.{fits_int32, int32-fits}
use etherscan.Rpc.Streams.{
  with_status, total, convert_all, Result, ok, error, RpcIterator, advance, collect, receive, serve,
  send_to, new_iterator,
}
use etherscan.Rpc.Streams.Delivery.{collect_lem, RoundTrips, collect-serve}
use etherscan.Rpc.TxGraph.{
  bigint_from_proto, Conversions, block_to_proto, block_from_proto, wallet_to_proto,
  wallet_from_proto, tx_to_proto, tx_from_proto,
}
use etherscan.Rpc.TxGraph.Server.{
  connect, server_upsert_blocks, server_insert_txs, server_upsert_wallets, server_blocks,
  server_wallet_txs, server_wallets,
}
use etherscan.Rpc.TxGraph.Client.{
  client_upsert_blocks, client_insert_txs, client_upsert_wallets, client_blocks, client_wallet_txs,
  client_wallets, next_block, next_tx, next_wallet,
}

-- The number is one that an int32 holds.

abbrev pub AllFit : List Block → Type 0
AllFit = All (λ b. fits_int32 b.number ≡ true)

block_back : (b : Block) → fits_int32 b.number ≡ true → block_from_proto (block_to_proto b) ≡ b
unfolding block_to_proto block_from_proto
block_back b fits =
    ap (λ (n : ℤ). record { number = n; processed = b.processed }) ((int32-fits b.number).1 fits)

wallet_back : (w : Wallet) → wallet_from_proto (wallet_to_proto w) ≡ w
unfolding wallet_to_proto wallet_from_proto
wallet_back w = refl

total-RoundTrips :
    {E X M : Type 0} (to : X → M) (from : M → X) (x : X)
    → from (to x) ≡ x
    → RoundTrips {E = E} (total to) (total from) x
total-RoundTrips to from x back = (to x, refl, ap ok back)

module _ {T E : Type 0} (conversions : Conversions T E) where
  -- The time of the transaction has a message that means this time.
  abbrev pub HasTimestamp : Tx → Type 0
  HasTimestamp tx =
      RoundTrips conversions.timestamp_proto conversions.timestamp_from_proto tx.timestamp

  tx-RoundTrips :
      (tx : Tx)
      → HasTimestamp tx
      → RoundTrips (tx_to_proto conversions) (tx_from_proto conversions) tx
  unfolding tx_to_proto tx_from_proto bigint_from_proto
  tx-RoundTrips tx (timestamp, sent, received) = (
    record {
      hash = tx.hash;
      status = tx.status;
      block = to_string tx.block;
      timestamp = timestamp;
      from = tx.from;
      to = tx.to;
      value = to_string tx.value;
      transaction_fee = to_string tx.transaction_fee;
      input = tx.input;
    },
    ground (arith, sent),
    ground (
      arith,
      received,
      set_string-to_string tx.block,
      set_string-to_string tx.value,
      set_string-to_string tx.transaction_fee,
    ),
  )

All-each : {X : Type 0} (P : X → Type 0) (xs : List X) → ((x : X) → P x) → All P xs
All-each P [] h = tt
All-each P (x ∷ xs) h = (h x, All-each P xs h)

All-implies :
    {X : Type 0} (P Q : X → Type 0) (xs : List X) → ((x : X) → P x → Q x) → All P xs → All Q xs
All-implies P Q [] h all = tt
All-implies P Q (x ∷ xs) h (here, all) = (h x here, All-implies P Q xs h all)

map_back :
    {X M : Type 0} (to : X → M) (from : M → X) (xs : List X)
    → All (λ x. from (to x) ≡ x) xs
    → map from (map to xs) ≡ xs
map_back to from [] all = refl
map_back to from (x ∷ xs) (back, all) = ap₂ ◌∷◌ back (map_back to from xs all)

convert_all_back :
    {E X M : Type 0} (to : X → Result E M) (from : M → Result E X) (xs : List X)
    → All (RoundTrips to from) xs
    → (ms : List M) × (convert_all to xs ≡ ok ms) × (convert_all from ms ≡ ok xs)
unfolding convert_all
convert_all_back to from [] all = ([], refl, refl)
convert_all_back to from (x ∷ xs) ((m, sent, received), all) =
    let (ms, sent', received') = convert_all_back to from xs all in
    (m ∷ ms, ground (arith, sent, sent'), ground (arith, received, received'))

module _ {E : Type 0} where
  -- The loop over an iterator that was opened, and nothing if that failed.
  abbrev pub read_all :
      {M X : Type 0}
      → (RpcIterator (Stream M E) E X → Bool × RpcIterator (Stream M E) E X)
      → ℕ
      → Result E (RpcIterator (Stream M E) E X)
      → Option (Stream X E)
  read_all next fuel (error e) = none
  read_all next fuel (ok it) = collect next fuel it

  -- An iterator of the store that could not be opened is an empty one for a remote client, which
  -- meets the error when it reads.
  abbrev pub remote : {X : Type 0} → (E → E) → Option E × Stream X E → Stream X E
  remote status (some e, stream) = ([], some (status e))
  remote status (none, (items, err)) = (items, Option.map status err)

module _ {T G E : Type 0} (status : E → E) (conversions : Conversions T E) (api : GraphApi G E)
    (reader : GraphReader G E) where
  -- Through the client, the graph does what it does when it is called itself, for blocks whose
  -- numbers are from -2^31 up to 2^31 - 1 and transactions whose times have a protocol-buffer
  -- timestamp; its errors come through the transport.
  pub remote_updates :
      (blocks : List Block) (txs : List Tx) (wallets : List Wallet) (g : G)
      → AllFit blocks
      → All (HasTimestamp conversions) txs
      → let cli = connect status conversions api reader in
        (client_upsert_blocks conversions cli blocks g
          ≡ with_status status (api.upsert_blocks blocks g))
        × (client_insert_txs conversions cli txs g ≡ with_status status (api.insert_txs txs g))
        × (client_upsert_wallets conversions cli wallets g
            ≡ with_status status (api.upsert_wallets wallets g))
  unfolding client_upsert_blocks client_insert_txs client_upsert_wallets server_upsert_blocks
      server_insert_txs server_upsert_wallets
  remote_updates blocks txs wallets g fit timed =
      let (req, sent, received) =
        convert_all_back (tx_to_proto conversions) (tx_from_proto conversions) txs (
          All-implies (HasTimestamp conversions)
            (RoundTrips (tx_to_proto conversions) (tx_from_proto conversions)) txs
            (tx-RoundTrips conversions) timed) in
      (
        ap (λ bs. with_status status (api.upsert_blocks bs g))
            (map_back block_to_proto block_from_proto blocks (
              All-implies (λ b. fits_int32 b.number ≡ true)
                (λ b. block_from_proto (block_to_proto b) ≡ b) blocks block_back fit)),
        ground (arith, sent, received),
        ap (λ ws. with_status status (api.upsert_wallets ws g))
            (map_back wallet_to_proto wallet_from_proto wallets
              (All-each (λ w. wallet_from_proto (wallet_to_proto w) ≡ w) wallets wallet_back)),
      )

  -- What a streaming handler returns and has sent.
  abbrev handled : {X M : Type 0} → (X → Result E M) → Option E × Stream X E → Option E × List M
  handled to (failed, (items, err)) = elim failed [
    | some e ↦ (some e, [])
    | none ↦ serve to send_to items err []
  ]

  collect-handled :
      {X M : Type 0} (to : X → Result E M) (from : M → Result E X) (fuel : ℕ)
      (opened : Option E × Stream X E)
      → All (RoundTrips to from) opened.1.0
      → length opened.1.0 < fuel
      → let (err, sent) = handled to opened in
        collect (advance receive from) fuel (new_iterator (sent, Option.map status err))
        ≡ some (remote status opened)
  collect-handled to from fuel (some e, (items, err)) all h =
      collect_lem from fuel [] (some (status e)) (omega arith)
  collect-handled to from fuel (none, (items, err)) all h =
      collect-serve to from status fuel items err all h

  -- If the numbers of the blocks fit an int32 and the times of the transactions have a timestamp, a loop
  -- over an iterator of the client ends, and reads what the graph's own iterator has, in its order, and
  -- its error as it comes through the transport. One unit of fuel for each item and one to end is
  -- enough.
  pub remote_reads :
      (address from_address to_address : Text) (fuel : ℕ) (g : G)
      → AllFit (reader.blocks g).0.1.0
      → All (HasTimestamp conversions) (reader.wallet_txs address g).1.0
      → length (reader.blocks g).0.1.0 < fuel
      → length (reader.wallet_txs address g).1.0 < fuel
      → length (reader.wallets from_address to_address g).1.0 < fuel
      → let cli = connect status conversions api reader in
        (read_all (next_block receive) fuel (client_blocks conversions cli g).0
          ≡ some (remote status (reader.blocks g).0))
        × ((client_blocks conversions cli g).1 ≡ (reader.blocks g).1)
        × (read_all (next_tx conversions receive) fuel (client_wallet_txs conversions cli address g)
            ≡ some (remote status (reader.wallet_txs address g)))
        × (read_all
              (next_wallet receive)
              fuel
              (client_wallets conversions cli from_address to_address g)
            ≡ some (remote status (reader.wallets from_address to_address g)))
  unfolding client_blocks client_wallet_txs client_wallets server_blocks server_wallet_txs
      server_wallets next_block next_tx next_wallet
  remote_reads address from_address to_address fuel g fit timed h1 h2 h3 =
      let ws = (reader.wallets from_address to_address g).1.0 in
      (
        collect-handled (total block_to_proto) (total block_from_proto) fuel (reader.blocks g).0
            (All-implies (λ b. fits_int32 b.number ≡ true)
              (RoundTrips (total block_to_proto) (total block_from_proto)) (reader.blocks g).0.1.0
              (λ b fits. total-RoundTrips block_to_proto block_from_proto b (block_back b fits))
              fit)
            h1,
        refl,
        collect-handled (tx_to_proto conversions) (tx_from_proto conversions) fuel
            (reader.wallet_txs address g)
            (All-implies (HasTimestamp conversions)
              (RoundTrips (tx_to_proto conversions) (tx_from_proto conversions))
              (reader.wallet_txs address g).1.0 (tx-RoundTrips conversions) timed)
            h2,
        collect-handled (total wallet_to_proto) (total wallet_from_proto) fuel
            (reader.wallets from_address to_address g)
            (All-each (RoundTrips (total wallet_to_proto) (total wallet_from_proto)) ws
              (λ w. total-RoundTrips wallet_to_proto wallet_from_proto w (wallet_back w)))
            h3,
      )
