-- ===== src/Partition/Detector.antt =====
-- depl/monolith/partition/detector.go: which partition this instance is.
use etherscan.Base.{
  ℕ, ◌<◌, ◌≡◌, false, Option, none, some, List, [], ◌∷◌, ◌++◌, length, nat_eqb, if◌then◌else◌, ℤ,
  pos, negsuc, arith, ltb,
}
use etherscan.Base.Text.{Text}
use etherscan.Base.Decimal.{
  set_string, to_string, set_string-to_string, has_dash, no_dash-to_string, has_dash-append,
}

pub data DetectorError (E : Type 0) : Type 0 where
  no_hostname : E → DetectorError E
  no_partition_number no_partition_data : DetectorError E

-- The last of the tokens of strings.Split(s, "-").
unfoldable pub last_token : Text → Text
last_token [] = []
last_token (c ∷ s) =
    let rest = last_token s in if has_dash s then rest else if nat_eqb c 45 then s else c ∷ s

-- strconv.ParseInt(s, 10, 32); `none` is its error.
unfoldable pub parse_int_32 : Text → Option ℤ
unfolding set_string
parse_int_32 s = elim (set_string s) [
  | none ↦ none
  | some (pos n) ↦ if ltb n 2147483648 then some (pos n) else none
  | some (negsuc n) ↦ if ltb n 2147483648 then some (negsuc n) else none
]

-- PartitionInfo of FromSRVRecords, with what the host and the name server say: the host name, and the
-- addresses that the SRV query found.
unfoldable pub partition_info :
    {E A : Type 0} → Option E × Text → Option E × List A → (ℤ × ℤ) × Option (DetectorError E)
unfolding last_token parse_int_32
partition_info (err, hostname) (err', addrs) = elim err [
  | some e ↦ ((negsuc 0, negsuc 0), some (no_hostname e))
  | none ↦ elim (parse_int_32 (last_token hostname)) [
    | none ↦ ((negsuc 0, negsuc 0), some no_partition_number)
    | some partition ↦ elim err' [
      | some e ↦ ((negsuc 0, negsuc 0), some no_partition_data)
      | none ↦ ((partition, pos (length addrs)), none)
    ]
  ]
]

-- PartitionInfo of Fixed.
pub record Fixed : Type 0 where
  pub partition : ℤ
  pub num_partitions : ℤ

unfoldable pub fixed_partition_info : {E : Type 0} → Fixed → (ℤ × ℤ) × Option (DetectorError E)
fixed_partition_info det = ((det.partition, det.num_partitions), none)

last_token-append : (name s : Text) → has_dash s ≡ false → last_token (name ++ 45 ∷ s) ≡ s
unfolding last_token has_dash
last_token-append [] s h = ground (arith, h)
last_token-append (c ∷ name) s h =
    ground (arith, last_token-append name s h, has_dash-append name s)

parse_int_32-to_string : (n : ℕ) → n < 2147483648 → parse_int_32 (to_string (pos n)) ≡ some (pos n)
unfolding parse_int_32
parse_int_32-to_string n h = ground (arith, set_string-to_string (pos n))

-- On a host whose name ends in a dash and the digits of a number below 2^31, as in a stateful set,
-- this number is the partition, and the number of partitions is that of the addresses found.
partition_info_lem :
    {E A : Type 0} (name : Text) (n : ℕ) (addrs : List A)
    → n < 2147483648
    → partition_info {E = E} (none, name ++ 45 ∷ to_string (pos n)) (none, addrs)
      ≡ ((pos n, pos (length addrs)), none)
unfolding partition_info
partition_info_lem name n addrs h = ground (
  arith,
  last_token-append name (to_string (pos n)) (no_dash-to_string n),
  parse_int_32-to_string n h,
)
