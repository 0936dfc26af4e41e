-- ===== src/Levin/Boost.antt =====
-- What the flat types of levin/boost.go write: a type byte and the value.
use go_monero.Base.{
  ℕ, ◌+◌, Bool, Option, none, some, List, [], ◌∷◌, ◌++◌, length, ◌==◌, bit_or, if◌then◌else◌,
  Result, ok, err, panic, out_of_fuel, too_big, ◌>>=◌,
}
use go_monero.Base.Bytes.{Bytes, le_bytes}
use go_monero.Base.Hex.{hex_decode}
use go_monero.Levin.Error.{Error}
use go_monero.Levin.VarIn.{var_in}

abbrev pub type_int64 : ℕ
type_int64 = 0x1

abbrev pub type_uint64 : ℕ
type_uint64 = 0x5

abbrev pub type_uint32 : ℕ
type_uint32 = 0x6

abbrev pub type_uint16 : ℕ
type_uint16 = 0x7

abbrev pub type_uint8 : ℕ
type_uint8 = 0x8

abbrev pub type_string : ℕ
type_string = 0x0a

abbrev pub type_bool : ℕ
type_bool = 0x0b

abbrev pub type_object : ℕ
type_object = 0x0c

abbrev pub flag_array : ℕ
flag_array = 0x80

abbrev pub hash_size : ℕ
hash_size = 32

abbrev pub mainnet_genesis_tx_byte : Bytes
mainnet_genesis_tx_byte =
    0x41 ∷ 0x80 ∷ 0x15 ∷ 0xbb ∷ 0x9a ∷ 0xe9 ∷ 0x82 ∷ 0xa1 ∷ 0x97 ∷ 0x5d ∷ 0xa7 ∷ 0xd7 ∷ 0x92 ∷ 0x77
    ∷ 0xc2 ∷ 0x70 ∷ 0x57 ∷ 0x27 ∷ 0xa5 ∷ 0x68 ∷ 0x94 ∷ 0xba ∷ 0x0f ∷ 0xb2 ∷ 0x46 ∷ 0xad ∷ 0xaa
    ∷ 0xbb ∷ 0x1f ∷ 0x46 ∷ 0x32 ∷ 0xe3 ∷ []

-- `varInB, err := VarIn(n); if err != nil { panic(err) }`
unfoldable pub must_var_in : ℕ → Result Error Bytes
must_var_in n = elim (var_in n) [
  | ok bs ↦ ok bs
  | err e ↦ panic too_big
  | panic p ↦ panic p
  | out_of_fuel ↦ out_of_fuel
]

-- `varInB, err := VarIn(n); if err != nil { return nil }`, and what is written with it.
unfoldable pub nil_or : Result Error Bytes → (Bytes → Bytes) → Bytes
nil_or (ok bs) f = f bs
nil_or _ f = []

-- BoostByte and BoostUint8, BoostUint16, BoostUint32, BoostUint64.
unfoldable pub uint8_bytes : ℕ → Bytes
uint8_bytes v = type_uint8 ∷ v ∷ []

unfoldable pub uint16_bytes : ℕ → Bytes
uint16_bytes v = type_uint16 ∷ le_bytes 2 v

unfoldable pub uint32_bytes : ℕ → Bytes
uint32_bytes v = type_uint32 ∷ le_bytes 4 v

unfoldable pub uint64_bytes : ℕ → Bytes
uint64_bytes v = type_uint64 ∷ le_bytes 8 v

unfoldable pub string_bytes : Bytes → Result Error Bytes
unfolding must_var_in
string_bytes v = do var_in_b ← must_var_in (length v); ok (type_string ∷ (var_in_b ++ v))

-- The hash stands behind the byte 0x80, which is the size 32 with the mark 0; nil if it is no hash.
unfoldable pub hash_bytes : Bytes → Bytes
hash_bytes v = elim (hex_decode v) [
  | none ↦ []
  | some hash ↦ if length hash == hash_size then type_string ∷ flag_array ∷ hash else []
]

-- The loop over the ids: `none` where it returns nil.
unfoldable pub join_hash : Option Bytes → Option Bytes → Option Bytes
join_hash (some hash) (some temp) = if length hash == hash_size then some (hash ++ temp) else none
join_hash (some hash) none = none
join_hash none temp = none

unfoldable pub join_hashes : List Bytes → Option Bytes
unfolding join_hash
join_hashes [] = some []
join_hashes (id ∷ ids) = join_hash (hex_decode id) (join_hashes ids)

abbrev pub is_empty {ℓ} : {A : Type ℓ} → List A → Bool
is_empty [] = Bool.true
is_empty (x ∷ xs) = Bool.false

unfoldable pub block_ids_bytes : List Bytes → Bytes
unfolding nil_or
block_ids_bytes ids = if is_empty ids then [] else elim (join_hashes ids) [
  | none ↦ []
  | some temp ↦ nil_or (var_in (length mainnet_genesis_tx_byte + length temp)) λ var_in_b.
      if length var_in_b == 2
      then type_string ∷ (var_in_b ++ (temp ++ mainnet_genesis_tx_byte))
      else []
]

unfoldable pub join_uint64 : List ℕ → Bytes
join_uint64 [] = []
join_uint64 (n ∷ ns) = le_bytes 8 n ++ join_uint64 ns

unfoldable pub tx_ids_bytes : List ℕ → Bytes
unfolding nil_or
tx_ids_bytes ids =
    let temp = join_uint64 ids in
    if is_empty ids
    then []
    else nil_or (var_in (length temp)) λ var_in_b. type_string ∷ (var_in_b ++ temp)

unfoldable pub uint64_array_bytes : List ℕ → Result Error Bytes
unfolding must_var_in
uint64_array_bytes uints =
    if is_empty uints then ok (bit_or type_uint64 flag_array ∷ 0x00 ∷ []) else do
      var_in_b ← must_var_in (length uints)
      ok (bit_or type_uint64 flag_array ∷ (var_in_b ++ join_uint64 uints))

unfoldable pub block_bytes : List Bytes → Bytes
unfolding nil_or
block_bytes ids = if is_empty ids then [] else elim (join_hashes ids) [
  | none ↦ []
  | some temp ↦ nil_or (var_in (length temp)) λ var_in_b. type_string ∷ (var_in_b ++ temp)
]

unfoldable pub bool_bytes : Bool → Bytes
bool_bytes b = type_bool ∷ (if b then 0x01 else 0x00) ∷ []
