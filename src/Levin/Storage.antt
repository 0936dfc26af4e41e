-- ===== src/Levin/Storage.antt =====
-- Writing a portable storage: levin/portable_storage.go, Section.Bytes, Entry.Bytes, Entries.Bytes
-- and PortableStorage.Bytes.
pub mod Read
pub mod Wire
pub mod Faults
mod Tests
use go_monero.Base.{
  ℕ, ◌%◌, ◌^◌, [], ◌∷◌, ◌++◌, length, Result, ok, panic, nil_pointer, unsupported, ◌>>=◌,
}
use go_monero.Base.Bytes.{Bytes, le_bytes}
use go_monero.Base.Int.{to_unsigned}
use go_monero.Levin.Error.{Error}
use go_monero.Levin.Entry.{
  Value, nil_value, uint8, uint16, uint32, uint64, int64, string, bool, object, Serializable, unset,
  boost_byte, boost_uint8, boost_uint16, boost_uint32, boost_uint64, boost_string, boost_hash,
  boost_block_ids, boost_block, boost_tx_ids, boost_uint64_array, boost_bool, section, bare_entries,
  Entries, no_entries, entry, count_entries,
}
use go_monero.Levin.Boost.{
  uint8_bytes, uint16_bytes, uint32_bytes, uint64_bytes, string_bytes, hash_bytes, block_ids_bytes,
  tx_ids_bytes, uint64_array_bytes, block_bytes, bool_bytes, must_var_in, type_object, type_int64,
}

abbrev pub signature_a : ℕ
signature_a = 0x01011101

abbrev pub signature_b : ℕ
signature_b = 0x01020101

abbrev pub format_version : ℕ
format_version = 0x01

-- The method `Bytes` of each type, and the loop that Section and PortableStorage share.
unfoldable mutual
  pub serial_bytes : Serializable → Result Error Bytes
  serial_bytes unset = panic nil_pointer
  serial_bytes (boost_byte v) = ok (uint8_bytes v)
  serial_bytes (boost_uint8 v) = ok (uint8_bytes v)
  serial_bytes (boost_uint16 v) = ok (uint16_bytes v)
  serial_bytes (boost_uint32 v) = ok (uint32_bytes v)
  serial_bytes (boost_uint64 v) = ok (uint64_bytes v)
  serial_bytes (boost_string v) = string_bytes v
  serial_bytes (boost_hash v) = ok (hash_bytes v)
  serial_bytes (boost_block_ids v) = ok (block_ids_bytes v)
  serial_bytes (boost_block v) = ok (block_bytes v)
  serial_bytes (boost_tx_ids v) = ok (tx_ids_bytes v)
  serial_bytes (boost_uint64_array v) = uint64_array_bytes v
  serial_bytes (boost_bool v) = ok (bool_bytes v)
  serial_bytes (section es) = do
    var_in_b ← must_var_in (count_entries es)
    body ← fields_bytes es
    ok (type_object ∷ (var_in_b ++ body))
  serial_bytes (bare_entries es) = ok []

  pub fields_bytes : Entries → Result Error Bytes
  fields_bytes no_entries = ok []
  fields_bytes (entry name s v rest) = do
    b ← serial_bytes s
    more ← fields_bytes rest
    ok ((length name % 256) ∷ (name ++ (b ++ more)))

-- PortableStorage.Bytes.
unfoldable pub storage_bytes : Entries → Result Error Bytes
storage_bytes es = do
  var_in_b ← must_var_in (count_entries es)
  body ← fields_bytes es
  ok (le_bytes 4 signature_a ++ (le_bytes 4 signature_b ++ (format_version ∷ (var_in_b ++ body))))

-- Entry.Bytes: an entry with a Serializable writes that, any other its value. The last case of the
-- source, for arrays, is never reached: a value of type Entries is taken by the case above it.
unfoldable mutual
  pub value_bytes : Value → Result Error Bytes
  value_bytes (uint8 v) = ok (uint8_bytes v)
  value_bytes (uint16 v) = ok (uint16_bytes v)
  value_bytes (uint32 v) = ok (uint32_bytes v)
  value_bytes (uint64 v) = ok (uint64_bytes v)
  value_bytes (int64 v) = ok (type_int64 ∷ le_bytes 8 (to_unsigned (2 ^ 63) v))
  value_bytes (string v) = string_bytes v
  value_bytes (object es) = do
    var_in_b ← must_var_in (count_entries es)
    body ← values_bytes es
    ok (type_object ∷ (var_in_b ++ body))
  value_bytes (bool v) = panic unsupported
  value_bytes nil_value = panic unsupported

  pub values_bytes : Entries → Result Error Bytes
  values_bytes no_entries = ok []
  values_bytes (entry name unset v rest) = do
    b ← value_bytes v
    more ← values_bytes rest
    ok ((length name % 256) ∷ (name ++ (b ++ more)))
  values_bytes (entry name s v rest) = do
    b ← serial_bytes s
    more ← values_bytes rest
    ok ((length name % 256) ∷ (name ++ (b ++ more)))

unfoldable pub entry_bytes : Serializable → Value → Result Error Bytes
entry_bytes unset v = value_bytes v
entry_bytes s v = serial_bytes s
