-- ===== src/Levin/Storage/Wire/Writing.antt =====
-- Every writable value is written as described, with no panic.
use native.Mathlib.Nat.{mod-eq_of_lt}
use go_monero.Base.{
  ℕ, ◌+◌, ◌*◌, ◌^◌, ◌≤◌, ◌<◌, ◌≡◌, refl, ap, ◌∙◌, false, some, List, [], ◌∷◌, ◌++◌, length, All,
  length-append, arith, ok,
}
use go_monero.Base.Bytes.{Bytes, le_bytes, length-le_bytes}
use go_monero.Base.Hex.{hex_decode}
use go_monero.Levin.Entry.{
  Serializable, unset, boost_byte, boost_uint8, boost_uint16, boost_uint32, boost_uint64,
  boost_string, boost_hash, boost_block_ids, boost_block, boost_tx_ids, boost_uint64_array,
  boost_bool, section, bare_entries, Entries, no_entries, entry, count_entries,
}
use go_monero.Levin.Boost.{
  must_var_in, nil_or, is_empty, string_bytes, hash_bytes, join_hashes, block_ids_bytes,
  join_uint64, tx_ids_bytes, uint64_array_bytes, block_bytes, uint8_bytes, uint16_bytes,
  uint32_bytes, uint64_bytes, bool_bytes, mainnet_genesis_tx_byte, type_string,
}
use go_monero.Levin.VarIn.{var_in}
use go_monero.Levin.VarIn.Laws.{encoding, var_in-encoding}
use go_monero.Levin.Storage.{
  serial_bytes, fields_bytes, storage_bytes, signature_a, signature_b, format_version,
}
use go_monero.Levin.Storage.Wire.{
  sized, hash_text, ids_text, type_of, body_of, fields_of, IsHash, IsWritable, AreWritable,
}

must_var_in-encoding : (n : ℕ) → n < 2 ^ 30 → must_var_in n ≡ ok (encoding n)
unfolding must_var_in
must_var_in-encoding n h = rw (var_in-encoding n h, must_var_in)

pub length-join_uint64 : (ns : List ℕ) → length (join_uint64 ns) ≡ 8 * length ns
unfolding join_uint64
length-join_uint64 [] = refl
length-join_uint64 (n ∷ ns) = omega (
  arith,
  length-append (le_bytes 8 n) (join_uint64 ns),
  length-le_bytes 8 n,
  length-join_uint64 ns,
)

-- The ids are all hashes, so the loop comes to its end.
joined :
    (ids : List Bytes)
    → All IsHash ids
    → (temp : Bytes) × (join_hashes ids ≡ some temp) × (length temp ≡ 32 * length ids)
unfolding join_hashes
joined [] h = ([], refl, refl)
joined (id ∷ ids) ((hash, e, len), h) =
    let (temp, ih, l) = joined ids h in
    (hash ++ temp, rw (e, ih, len), omega (arith, len, l, length-append hash temp))

pub join_hashes-All :
    (ids : List Bytes)
    → All IsHash ids
    → (join_hashes ids ≡ some (ids_text ids)) × (length (ids_text ids) ≡ 32 * length ids)
unfolding ids_text
join_hashes-All ids h = let (temp, e, l) = joined ids h in rw e (refl, l)

pub hash_all :
    (v : Bytes) → IsHash v → (hex_decode v ≡ some (hash_text v)) × (length (hash_text v) ≡ 32)
unfolding hash_text
hash_all v (hash, e, l) = rw e (refl, l)

length-encoding_two : (n : ℕ) → 64 ≤ n → n ≤ 16383 → length (encoding n) ≡ 2
unfolding encoding
length-encoding_two n lo hi = ground (arith, length-le_bytes 2 (n * 4 + 1))

string_bytes-sized : (v : Bytes) → length v < 2 ^ 30 → string_bytes v ≡ ok (type_string ∷ sized v)
unfolding string_bytes sized
string_bytes-sized v h = rw (must_var_in-encoding (length v) h)

hash_bytes-sized : (v : Bytes) → IsHash v → hash_bytes v ≡ type_string ∷ sized (hash_text v)
unfolding hash_bytes sized encoding
hash_bytes-sized v h = let (e, l) = hash_all v h in rw (e, hash_bytes, l)

nil_or-encoding : (n : ℕ) (f : Bytes → Bytes) → n < 2 ^ 30 → nil_or (var_in n) f ≡ f (encoding n)
unfolding nil_or
nil_or-encoding n f h = rw (var_in-encoding n h)

is_empty_pos {ℓ} : {A : Type ℓ} (xs : List A) → 0 < length xs → is_empty xs ≡ false
is_empty_pos [] h = absurd (omega arith)
is_empty_pos (x ∷ xs) h = refl

block_bytes-sized :
    (ids : List Bytes)
    → All IsHash ids
    → 0 < length ids
    → 32 * length ids < 2 ^ 30
    → block_bytes ids ≡ type_string ∷ sized (ids_text ids)
unfolding block_bytes sized
block_bytes-sized ids h pos small =
    let (e, l) = join_hashes-All ids h in
    rw (is_empty_pos ids pos, e) (nil_or-encoding (length (ids_text ids)) _ (omega (arith, l)))

block_ids_bytes-sized :
    (ids : List Bytes)
    → All IsHash ids
    → 0 < length ids
    → length ids ≤ 510
    → block_ids_bytes ids ≡ type_string ∷ sized (ids_text ids ++ mainnet_genesis_tx_byte)
unfolding block_ids_bytes sized
block_ids_bytes-sized ids h pos small =
    let (e, l) = join_hashes-All ids h in
    let whole = length-append (ids_text ids) mainnet_genesis_tx_byte in
    let size : length (ids_text ids ++ mainnet_genesis_tx_byte) ≡ 32 + length (ids_text ids) =
      omega (arith, whole) in
    let two =
      length-encoding_two (32 + length (ids_text ids)) (omega (arith, l)) (omega (arith, l)) in
    rw (is_empty_pos ids pos, e)
      (nil_or-encoding (32 + length (ids_text ids)) _ (omega (arith, l)) ∙ rw (two, size))

tx_ids_bytes-sized :
    (ids : List ℕ)
    → 0 < length ids
    → 8 * length ids < 2 ^ 30
    → tx_ids_bytes ids ≡ type_string ∷ sized (join_uint64 ids)
unfolding tx_ids_bytes sized
tx_ids_bytes-sized ids pos small =
    rw (is_empty_pos ids pos)
      (nil_or-encoding (length (join_uint64 ids)) _ (omega (arith, length-join_uint64 ids)))

uint64_array_bytes-body :
    (ns : List ℕ)
    → length ns < 2 ^ 30
    → uint64_array_bytes ns ≡ ok (0x85 ∷ (encoding (length ns) ++ join_uint64 ns))
unfolding uint64_array_bytes
uint64_array_bytes-body [] h = unfold encoding join_uint64 in refl
uint64_array_bytes-body (n ∷ ns) h = rw (must_var_in-encoding (length (n ∷ ns)) h)

mutual
  unfolding serial_bytes type_of body_of uint8_bytes uint16_bytes uint32_bytes uint64_bytes
      bool_bytes

  serial_bytes-wire :
      (s : Serializable) → IsWritable s → serial_bytes s ≡ ok (type_of s ∷ body_of s)
  serial_bytes-wire unset w = absurd w
  serial_bytes-wire (boost_byte v) w = refl
  serial_bytes-wire (boost_uint8 v) w = refl
  serial_bytes-wire (boost_uint16 v) w = refl
  serial_bytes-wire (boost_uint32 v) w = refl
  serial_bytes-wire (boost_uint64 v) w = refl
  serial_bytes-wire (boost_string v) w = string_bytes-sized v w
  serial_bytes-wire (boost_hash v) w = ap ok (hash_bytes-sized v w)
  serial_bytes-wire (boost_block_ids v) (h, pos, small) =
      ap ok (block_ids_bytes-sized v h pos small)
  serial_bytes-wire (boost_block v) (h, pos, small) = ap ok (block_bytes-sized v h pos small)
  serial_bytes-wire (boost_tx_ids v) (pos, small) = ap ok (tx_ids_bytes-sized v pos small)
  serial_bytes-wire (boost_uint64_array v) (h, small) = uint64_array_bytes-body v small
  serial_bytes-wire (boost_bool v) w = refl
  serial_bytes-wire (section es) (ws, small) =
      rw (must_var_in-encoding (count_entries es) small, fields_bytes-wire es ws)
  serial_bytes-wire (bare_entries es) w = absurd w

  fields_bytes-wire : (es : Entries) → AreWritable es → fields_bytes es ≡ ok (fields_of es)
  fields_bytes-wire no_entries w = refl
  fields_bytes-wire (entry name s v rest) (small, w, ws) =
      rw (serial_bytes-wire s w, fields_bytes-wire rest ws, mod-eq_of_lt small)

-- The bytes of a storage: the signatures, the version, the count of the entries, and the entries.
unfoldable pub storage_wire : Entries → Bytes
storage_wire es =
    le_bytes 4 signature_a
    ++ (le_bytes 4 signature_b ++ (format_version ∷ (encoding (count_entries es) ++ fields_of es)))

pub storage_bytes-wire :
    (es : Entries)
    → AreWritable es
    → count_entries es < 2 ^ 30
    → storage_bytes es ≡ ok (storage_wire es)
unfolding storage_bytes storage_wire
storage_bytes-wire es w small =
    rw (must_var_in-encoding (count_entries es) small, fields_bytes-wire es w)
