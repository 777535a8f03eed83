-- ===== src/Scanner/Parser/Stores.antt =====
-- scanner/tx_parser.go: the parser over the in-memory graph.
use etherscan.Base.{
  ==_refl, ℕ, suc, ◌≡◌, refl, ◌∙◌, sym, ap, Bool, true, false, ◌||◌, none, some, List, [], ◌∷◌, map,
  length, nat_eqb, All, arith, ◌==◌, ==_iff, Bool-cases, inl, inr, ℤ, ◌⊎◌,
}
use etherscan.Base.Text.{Text, text_eq}
use etherscan.Base.Map.{Map, keys, has_key, lookup, insert, has_key-insert}
use etherscan.Base.Member.{member, member-keys, All-of_members}
use etherscan.TxGraph.Types.{Tx}
use etherscan.TxGraph.Memory.Interface.{memory_api}
use etherscan.TxGraph.Memory.{InMemoryGraph, upsert_wallets, insert_txs}
use etherscan.TxGraph.Memory.Txs.{IsConsistent, insert_txs-IsConsistent}
use etherscan.TxGraph.Memory.Wallets.{
  any_address, any_hash, AllAddresses, upsert_wallets_lem, more_wallets-IsConsistent, IsConnected,
  insert_txs_origin, insert_txs_lem,
}
use etherscan.Scanner.Parser.{
  Transaction, ScannerPayload, zero_address, parse_from, parse_to, graph_tx, graph_txs, wallets_map,
  wallet_of, process,
}
use etherscan.Scanner.Parser.Records.{
  in_payload, AmongPayload, graph_txs-AmongPayload, any_hash-graph_txs,
}

abbrev pub IsAddress : Text → Type 0
IsAddress a = nat_eqb (length a) 40 ≡ true

-- The recipients have addresses of 40 characters.
abbrev pub AllValid : List Transaction → Type 0
AllValid = All (λ tx. IsAddress (parse_to tx))

-- The address is that of a sender or a recipient.
abbrev any_endpoint : Text → List Transaction → Bool
any_endpoint a [] = false
any_endpoint a (tx ∷ txs) = parse_to tx == a || parse_from tx == a || any_endpoint a txs

has_key-wallets_map :
    (a : Text) (txs : List Transaction) (m : Map Text Bool)
    → has_key a (wallets_map txs m) ≡ (any_endpoint a txs || has_key a m)
unfolding wallets_map
has_key-wallets_map a [] m = refl
has_key-wallets_map a (tx ∷ txs) m = ground (
  arith,
  has_key-wallets_map a txs (insert (parse_to tx) true (insert (parse_from tx) true m)),
  has_key-insert (parse_to tx) a true (insert (parse_from tx) true m),
  has_key-insert (parse_from tx) a true m,
)

any_address-map : (a : Text) (xs : List Text) → any_address a (map wallet_of xs) ≡ member a xs
unfolding member
any_address-map a [] = refl
any_address-map a (x ∷ xs) = ground (arith, any_address-map a xs)

AllAddresses-map : (xs : List Text) → All IsAddress xs → AllAddresses (map wallet_of xs)
AllAddresses-map [] all = tt
AllAddresses-map (x ∷ xs) (valid, all) = (valid, AllAddresses-map xs all)

parse_from-IsAddress : (tx : Transaction) → IsAddress (parse_from tx)
unfolding parse_from
parse_from-IsAddress tx = refl

endpoint-IsAddress :
    (a : Text) (txs : List Transaction) → AllValid txs → any_endpoint a txs ≡ true → IsAddress a
endpoint-IsAddress a [] all h = ground arith
endpoint-IsAddress a (tx ∷ txs) (valid, all) h = elim (Bool-cases (parse_to tx == a)) [
  | inl to ↦ rw (← (==_iff (parse_to tx) a).0 to) valid
  | inr other ↦ elim (Bool-cases (parse_from tx == a)) [
    | inl from ↦ rw (← (==_iff (parse_from tx) a).0 from) (parse_from-IsAddress tx)
    | inr later ↦ endpoint-IsAddress a txs all (ground arith)
  ]
]

graph_txs-IsConnected :
    (number : ℤ) (clock : ℕ → ℕ) (i : ℕ) (txs : List Transaction) (g : InMemoryGraph)
    → ((a : Text) → any_endpoint a txs ≡ true → has_key a g.wallets ≡ true)
    → All (IsConnected g) (graph_txs number clock i txs)
unfolding graph_txs graph_tx
graph_txs-IsConnected number clock i [] g known = tt
graph_txs-IsConnected number clock i (tx ∷ txs) g known = (
  (
    known (parse_from tx) (ground (arith, ==_refl (parse_from tx))),
    known (parse_to tx) (ground (arith, ==_refl (parse_to tx))),
  ),
  graph_txs-IsConnected number clock (suc i) txs g (λ a h. known a (ground arith)),
)

-- What the parser leaves: exactly the hashes of the payload are stored besides the old ones, what is
-- stored is as before or the record of a transaction of the payload, and the blocks are the same.
pub record IsStored (p : ScannerPayload) (g : InMemoryGraph) (g' : InMemoryGraph) : Type 0 where
  pub consistent : IsConsistent g'
  pub stored : (h : Text) → has_key h g'.txs ≡ (in_payload h p.txs || has_key h g.txs)
  pub records :
      (h : Text) (t : Tx)
      → lookup h g'.txs ≡ some t
      → (lookup h g.txs ≡ some t) ⊎ AmongPayload p.block_number t p.txs
  pub blocks : g'.blocks ≡ g.blocks

or_false : (b : Bool) → (b || false) ≡ b
or_false true = refl
or_false false = refl

module _ (order : List Text → List Text)
    (fair : (ks : List Text) (a : Text) → member a (order ks) ≡ member a ks)
    (txs : List Transaction) (valid : AllValid txs) (g : InMemoryGraph) where
  -- The addresses that the parser upserts.
  abbrev addresses : List Text
  addresses = order (keys (wallets_map txs []))

  member-addresses : (a : Text) → member a addresses ≡ any_endpoint a txs
  unfolding has_key lookup
  member-addresses a =
      fair (keys (wallets_map txs [])) a
      ∙ member-keys a (wallets_map txs [])
      ∙ has_key-wallets_map a txs []
      ∙ or_false (any_endpoint a txs)

  upserts_wallets :
      (a : Text)
      → ((upsert_wallets (map wallet_of addresses) g).0 ≡ none)
        × (has_key a (upsert_wallets (map wallet_of addresses) g).1.wallets
            ≡ (any_endpoint a txs || has_key a g.wallets))
        × ((upsert_wallets (map wallet_of addresses) g).1.txs ≡ g.txs)
        × ((upsert_wallets (map wallet_of addresses) g).1.wallet_txs_map ≡ g.wallet_txs_map)
        × ((upsert_wallets (map wallet_of addresses) g).1.blocks ≡ g.blocks)
  upserts_wallets a =
      let (fine, keys_are, same_txs, same_map, same_blocks) =
        upsert_wallets_lem (map wallet_of addresses) a g (
          AllAddresses-map addresses (
            All-of_members IsAddress addresses
              (λ b listed. endpoint-IsAddress b txs valid (sym (member-addresses b) ∙ listed)))) in
      (
        fine,
        keys_are
            ∙ ap (λ b. b || has_key a g.wallets) (any_address-map a addresses ∙ member-addresses a),
        same_txs,
        same_map,
        same_blocks,
      )

module _ (order : List Text → List Text) (clock : ℕ → ℕ) where
  process_cons :
      (n : ℤ) (tx : Transaction) (txs : List Transaction) (g g1 g2 : InMemoryGraph)
      → upsert_wallets (map wallet_of (order (keys (wallets_map (tx ∷ txs) [])))) g ≡ (none, g1)
      → insert_txs (graph_txs n clock 0 (tx ∷ txs)) g1 ≡ (none, g2)
      → process memory_api order clock (record { block_number = n; txs = tx ∷ txs }) g
        ≡ ((some (record { block_number = n; txs = tx ∷ txs }), none), g2)
  unfolding process
  process_cons n tx txs g g1 g2 h k = ground arith

  stores :
      (n : ℤ) (txs : List Transaction) (g : InMemoryGraph)
      → ((ks : List Text) (a : Text) → member a (order ks) ≡ member a ks)
      → AllValid txs
      → IsConsistent g
      → ((process memory_api order clock (record { block_number = n; txs = txs }) g).0
          ≡ (some (record { block_number = n; txs = txs }), none))
        × IsStored
            (record { block_number = n; txs = txs })
            g
            (process memory_api order clock (record { block_number = n; txs = txs }) g).1
  unfolding process graph_txs
  stores n [] g fair valid ok = (
    refl,
    record { consistent = ok; stored = λ h. refl; records = λ h t at. inl at; blocks = refl },
  )
  stores n (tx ∷ txs) g fair valid ok =
      let ws = map wallet_of (order (keys (wallets_map (tx ∷ txs) []))) in
      let new = graph_txs n clock 0 (tx ∷ txs) in
      let g1 = (upsert_wallets ws g).1 in
      let g2 = (insert_txs new g1).1 in
      let added = upserts_wallets order fair (tx ∷ txs) valid g in
      let (fine, _, same_txs, same_map, same_blocks) = added zero_address in
      let connected =
        graph_txs-IsConnected n clock 0 (tx ∷ txs) g1 (λ a h. (added a).1 ∙ ground arith) in
      let inserted = λ (h : Text). insert_txs_lem new h g1 connected in
      rw
        (process_cons n tx txs g g1 g2 (ap (λ e. (e, g1)) fine)
          (ap (λ e. (e, g2)) (inserted tx.hash).0))
        (
          refl,
          record {
            consistent = insert_txs-IsConsistent new g1 (
                more_wallets-IsConsistent g g1 same_txs same_map (λ a h. (added a).1 ∙ ground arith)
                  ok);
            stored = λ h.
                (inserted h).1
                ∙ ap (λ m. any_hash h new || has_key h m) same_txs
                ∙ ap (λ b. b || has_key h g.txs) (any_hash-graph_txs n clock 0 (tx ∷ txs) h);
            records = λ h t at. elim (insert_txs_origin new h t g1 at) [
              | inl old ↦ inl (ap (lookup h) (sym same_txs) ∙ old)
              | inr among ↦ inr (graph_txs-AmongPayload n clock 0 (tx ∷ txs) t among)
            ];
            blocks = (inserted tx.hash).3 ∙ same_blocks;
          },
        )

  -- Over the in-memory graph, and for recipients with addresses of 40 characters, the parser passes
  -- the payload on without an error. The graph stays consistent; the hashes of all transactions of the
  -- payload are stored, and no others besides the old ones; and each stored transaction is an old one,
  -- or the record of one of the payload, with its hash, block, recipient, value, fee and input.
  -- `order` may be any order of the wallets.
  pub process_stores :
      (p : ScannerPayload) (g : InMemoryGraph)
      → ((ks : List Text) (a : Text) → member a (order ks) ≡ member a ks)
      → AllValid p.txs
      → IsConsistent g
      → ((process memory_api order clock p g).0 ≡ (some p, none))
        × IsStored p g (process memory_api order clock p g).1
  process_stores p g fair valid ok = stores p.block_number p.txs g fair valid ok
