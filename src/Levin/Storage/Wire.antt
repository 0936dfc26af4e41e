-- ===== src/Levin/Storage/Wire.antt =====
-- What a Serializable is on the wire and after reading: an independent description of the writers.
pub mod Writing
pub mod Reading
use go_monero.Base.{
  ℕ, ◌+◌, ◌*◌, ◌^◌, ◌≤◌, ◌<◌, ◌≡◌, Bool, true, false, Option, none, some, List, [], ◌∷◌, ◌++◌,
  length, All, bit_or, if◌then◌else◌,
}
use go_monero.Base.Bytes.{Bytes, le_bytes}
use go_monero.Base.Hex.{hex_decode}
use go_monero.Levin.Entry.{
  Value, nil_value, uint8, uint16, uint32, uint64, string, bool, object, Serializable, unset,
  boost_byte, boost_uint8, boost_uint16, boost_uint32, boost_uint64, boost_string, boost_hash,
  boost_block_ids, boost_block, boost_tx_ids, boost_uint64_array, boost_bool, section, bare_entries,
  Entries, no_entries, entry, count_entries,
}
use go_monero.Levin.Boost.{
  type_uint64, type_uint32, type_uint16, type_uint8, type_string, type_bool, type_object,
  flag_array, mainnet_genesis_tx_byte, join_hashes, join_uint64,
}
use go_monero.Levin.VarIn.Laws.{encoding}

abbrev or_nil : Option Bytes → Bytes
or_nil none = []
or_nil (some bs) = bs

-- The bytes of a text, behind their size.
unfoldable pub sized : Bytes → Bytes
sized s = encoding (length s) ++ s

-- The text that a value of a string type stands for.
unfoldable pub hash_text : Bytes → Bytes
hash_text v = or_nil (hex_decode v)

unfoldable pub ids_text : List Bytes → Bytes
ids_text ids = or_nil (join_hashes ids)

unfoldable pub type_of : Serializable → ℕ
type_of unset = 0
type_of (boost_byte v) = type_uint8
type_of (boost_uint8 v) = type_uint8
type_of (boost_uint16 v) = type_uint16
type_of (boost_uint32 v) = type_uint32
type_of (boost_uint64 v) = type_uint64
type_of (boost_string v) = type_string
type_of (boost_hash v) = type_string
type_of (boost_block_ids v) = type_string
type_of (boost_block v) = type_string
type_of (boost_tx_ids v) = type_string
type_of (boost_uint64_array v) = type_uint64 + flag_array
type_of (boost_bool v) = type_bool
type_of (section es) = type_object
type_of (bare_entries es) = 0

unfoldable mutual
  pub body_of : Serializable → Bytes
  body_of unset = []
  body_of (boost_byte v) = v ∷ []
  body_of (boost_uint8 v) = v ∷ []
  body_of (boost_uint16 v) = le_bytes 2 v
  body_of (boost_uint32 v) = le_bytes 4 v
  body_of (boost_uint64 v) = le_bytes 8 v
  body_of (boost_string v) = sized v
  body_of (boost_hash v) = sized (hash_text v)
  body_of (boost_block_ids v) = sized (ids_text v ++ mainnet_genesis_tx_byte)
  body_of (boost_block v) = sized (ids_text v)
  body_of (boost_tx_ids v) = sized (join_uint64 v)
  body_of (boost_uint64_array v) = encoding (length v) ++ join_uint64 v
  body_of (boost_bool v) = (if v then 1 else 0) ∷ []
  body_of (section es) = encoding (count_entries es) ++ fields_of es
  body_of (bare_entries es) = []

  pub fields_of : Entries → Bytes
  fields_of no_entries = []
  fields_of (entry name s v rest) =
      length name ∷ (name ++ (type_of s ∷ (body_of s ++ fields_of rest)))

-- The elements of an array have no names.
unfoldable pub anonymous : List ℕ → Entries
anonymous [] = no_entries
anonymous (n ∷ ns) = entry [] unset (uint64 n) (anonymous ns)

-- What a reader makes of it.
unfoldable mutual
  pub value_of : Serializable → Value
  value_of unset = nil_value
  value_of (boost_byte v) = uint8 v
  value_of (boost_uint8 v) = uint8 v
  value_of (boost_uint16 v) = uint16 v
  value_of (boost_uint32 v) = uint32 v
  value_of (boost_uint64 v) = uint64 v
  value_of (boost_string v) = string v
  value_of (boost_hash v) = string (hash_text v)
  value_of (boost_block_ids v) = string (ids_text v ++ mainnet_genesis_tx_byte)
  value_of (boost_block v) = string (ids_text v)
  value_of (boost_tx_ids v) = string (join_uint64 v)
  value_of (boost_uint64_array v) = object (anonymous v)
  value_of (boost_bool v) = bool v
  value_of (section es) = object (read_back es)
  value_of (bare_entries es) = nil_value

  pub read_back : Entries → Entries
  read_back no_entries = no_entries
  read_back (entry name s v rest) = entry name unset (value_of s) (read_back rest)

abbrev pub IsHash : Bytes → Type 0
IsHash v = (hash : Bytes) × (hex_decode v ≡ some hash) × (length hash ≡ 32)

abbrev pub HasUint64s : List ℕ → Type 0
HasUint64s = All (λ n. n < 2 ^ 64)

-- What can be written: numbers in their types, sizes below 2^30, hashes of 32 bytes in hexadecimal,
-- no empty list of ids, and names of at most 255 bytes.
abbrev mutual
  pub IsWritable : Serializable → Type 0
  IsWritable unset = ⊥
  IsWritable (boost_byte v) = v < 256
  IsWritable (boost_uint8 v) = v < 256
  IsWritable (boost_uint16 v) = v < 2 ^ 16
  IsWritable (boost_uint32 v) = v < 2 ^ 32
  IsWritable (boost_uint64 v) = v < 2 ^ 64
  IsWritable (boost_string v) = length v < 2 ^ 30
  IsWritable (boost_hash v) = IsHash v
  IsWritable (boost_block_ids v) = All IsHash v × (0 < length v) × (length v ≤ 510)
  IsWritable (boost_block v) = All IsHash v × (0 < length v) × (32 * length v < 2 ^ 30)
  IsWritable (boost_tx_ids v) = (0 < length v) × (8 * length v < 2 ^ 30)
  IsWritable (boost_uint64_array v) = HasUint64s v × (length v < 2 ^ 30)
  IsWritable (boost_bool v) = Unit {0}
  IsWritable (section es) = AreWritable es × (count_entries es < 2 ^ 30)
  IsWritable (bare_entries es) = ⊥

  pub AreWritable : Entries → Type 0
  AreWritable no_entries = Unit {0}
  AreWritable (entry name s v rest) = (length name < 256) × IsWritable s × AreWritable rest
