-- ===== src/Levin/Storage/Wire/Reading.antt =====
-- Every value on the wire is read back, and a storage that was written is parsed to its entries.
use go_monero.Base.{
  ℕ, zero, suc, ◌+◌, ◌*◌, ◌^◌, ◌<◌, ◌≡◌, refl, ◌∙◌, true, false, List, [], ◌∷◌, ◌++◌, length,
  length-append, arith, ltb, le→ltb, ok, append_assoc,
}
use go_monero.Base.Bits.{top_bit}
use go_monero.Base.Bytes.{Bytes, le_bytes, length-le_bytes, cut_uint-front}
use go_monero.Levin.Slice.{slice-append, slice_uint-front}
use go_monero.Levin.Error.{Error}
use go_monero.Levin.Entry.{
  string, Serializable, unset, boost_byte, boost_uint8, boost_uint16, boost_uint32, boost_uint64,
  boost_string, boost_hash, boost_block_ids, boost_block, boost_tx_ids, boost_uint64_array,
  boost_bool, section, bare_entries, Entries, no_entries, entry, count_entries,
}
use go_monero.Levin.Boost.{join_uint64, mainnet_genesis_tx_byte, type_string, type_uint64}
use go_monero.Levin.VarIn.Laws.{encoding, read_var_int-encoding, length-encoding}
use go_monero.Levin.Storage.{storage_bytes, signature_a, signature_b}
use go_monero.Levin.Storage.Read.{
  read_string, read_scalar, read_object, read_fields, read_items, read_any, enough,
  new_portable_storage_from_bytes,
}
use go_monero.Levin.Storage.Wire.{
  sized, hash_text, ids_text, type_of, body_of, fields_of, value_of, read_back, anonymous,
  HasUint64s, IsWritable, AreWritable,
}
use go_monero.Levin.Storage.Wire.Writing.{
  storage_wire, storage_bytes-wire, join_hashes-All, hash_all, length-join_uint64,
}

read_string-sized :
    (spare s rest : Bytes) → length s < 2 ^ 30 → read_string spare (sized s ++ rest) ≡ ok (s, rest)
unfolding read_string sized
read_string-sized spare s rest h = simp (
  append_assoc,
  read_var_int-encoding spare (length s) (s ++ rest) h,
  slice-append {E = Error} spare s rest (length s) refl,
)

-- A type that is neither an array nor an object is read at once, for any fuel.
scalar :
    (spare : Bytes) (f ttype : ℕ) (bytes : Bytes)
    → 0 < f
    → ttype < 12
    → read_any spare f ttype bytes ≡ read_scalar spare ttype bytes
unfolding read_any
scalar spare zero ttype bytes h lt = absurd (omega arith)
scalar spare (suc f) ttype bytes h lt = ground (arith, top_bit ttype)

read_any-text :
    (spare : Bytes) (f : ℕ) (s rest : Bytes)
    → 0 < f
    → length s < 2 ^ 30
    → read_any spare f type_string (sized s ++ rest) ≡ ok (string s, rest)
unfolding read_scalar
read_any-text spare f s rest h small =
    scalar spare f type_string _ h (omega arith) ∙ rw (read_string-sized spare s rest small)

-- The loop over an array of uint64.
read_items-uint64 :
    (spare : Bytes) (f : ℕ) (ns : List ℕ) (rest : Bytes)
    → HasUint64s ns
    → length ns + 1 < f
    → read_items spare f type_uint64 (length ns) (join_uint64 ns ++ rest) ≡ ok (anonymous ns, rest)
unfolding read_items join_uint64 anonymous read_scalar
read_items-uint64 spare zero ns rest h le = absurd (omega arith)
read_items-uint64 spare (suc f) [] rest h le = refl
read_items-uint64 spare (suc f) (n ∷ ns) rest (hn, h) le = rw (
  append_assoc,
  scalar spare f type_uint64 (le_bytes 8 n ++ (join_uint64 ns ++ rest)) (omega arith) (omega arith),
  cut_uint-front {E = Error} 8 n hn,
  read_items-uint64 spare f ns rest h (omega arith),
)

mutual
  unfolding read_any type_of body_of value_of read_scalar count_entries

  read_any-wire :
      (spare : Bytes) (s : Serializable) (f : ℕ) (rest : Bytes)
      → IsWritable s
      → 3 * length (body_of s) + 3 < f
      → read_any spare f (type_of s) (body_of s ++ rest) ≡ ok (value_of s, rest)
  read_any-wire spare unset f rest w le = absurd w
  read_any-wire spare (boost_byte v) f rest w le = scalar spare f 0x08 _ (omega arith) (omega arith)
  read_any-wire spare (boost_uint8 v) f rest w le =
      scalar spare f 0x08 _ (omega arith) (omega arith)
  read_any-wire spare (boost_uint16 v) f rest w le =
      scalar spare f 0x07 _ (omega arith) (omega arith) ∙ rw (cut_uint-front {E = Error} 2 v w)
  read_any-wire spare (boost_uint32 v) f rest w le =
      scalar spare f 0x06 _ (omega arith) (omega arith) ∙ rw (cut_uint-front {E = Error} 4 v w)
  read_any-wire spare (boost_uint64 v) f rest w le =
      scalar spare f 0x05 _ (omega arith) (omega arith) ∙ rw (cut_uint-front {E = Error} 8 v w)
  read_any-wire spare (boost_string v) f rest w le = read_any-text spare f v rest (omega arith) w
  read_any-wire spare (boost_hash v) f rest w le =
      read_any-text spare f (hash_text v) rest (omega arith) (omega (arith, (hash_all v w).1))
  read_any-wire spare (boost_block_ids v) f rest (w, pos, small) le =
      read_any-text spare f _ rest (omega arith)
        (omega (arith, (join_hashes-All v w).1, length-append (ids_text v) mainnet_genesis_tx_byte))
  read_any-wire spare (boost_block v) f rest (w, pos, small) le =
      read_any-text spare f (ids_text v) rest (omega arith) (omega (arith, (join_hashes-All v w).1))
  read_any-wire spare (boost_tx_ids v) f rest (pos, small) le =
      read_any-text spare f (join_uint64 v) rest (omega arith) (omega (arith, length-join_uint64 v))
  read_any-wire spare (boost_uint64_array v) zero rest w le = absurd (omega arith)
  read_any-wire spare (boost_uint64_array v) (suc zero) rest w le = absurd (omega arith)
  read_any-wire spare (boost_uint64_array v) (suc (suc f)) rest (w, small) le = rw (
    append_assoc,
    read_var_int-encoding spare (length v) (join_uint64 v ++ rest) small,
    read_items-uint64 spare f v rest w (
        omega (
          arith,
          length-append (encoding (length v)) (join_uint64 v),
          length-join_uint64 v,
          length-encoding (length v),
        )),
  )
  read_any-wire spare (boost_bool true) f rest w le =
      scalar spare f 0x0b _ (omega arith) (omega arith)
  read_any-wire spare (boost_bool false) f rest w le =
      scalar spare f 0x0b _ (omega arith) (omega arith)
  read_any-wire spare (section es) zero rest w le = absurd (omega arith)
  read_any-wire spare (section es) (suc zero) rest w le = absurd (omega arith)
  read_any-wire spare (section es) (suc (suc f)) rest (w, small) le = rw (
    append_assoc,
    read_var_int-encoding spare (count_entries es) (fields_of es ++ rest) small,
    read_fields-wire spare es f rest w (
        omega (
          arith,
          length-append (encoding (count_entries es)) (fields_of es),
          length-encoding (count_entries es),
        )),
  )
  read_any-wire spare (bare_entries es) f rest w le = absurd w

  read_fields-wire :
      (spare : Bytes) (es : Entries) (f : ℕ) (rest : Bytes)
      → AreWritable es
      → 3 * length (fields_of es) + 1 < f
      → read_fields spare f (count_entries es) (fields_of es ++ rest) ≡ ok (read_back es, rest)
  read_fields-wire spare no_entries zero rest w le = absurd (omega arith)
  read_fields-wire spare no_entries (suc f) rest w le = refl
  read_fields-wire spare (entry name s v es) zero rest w le = absurd (omega arith)
  read_fields-wire spare (entry name s v es) (suc f) rest (small, w, ws) le = simp (
    append_assoc,
    slice-append {E = Error} spare name (type_of s ∷ (body_of s ++ (fields_of es ++ rest)))
        (length name) refl,
    read_any-wire spare s f (fields_of es ++ rest) w (omega (arith, parts)),
    read_fields-wire spare es f rest ws (omega (arith, parts)),
  )
    where
      parts :
          length (fields_of (entry name s v es))
          ≡ 2 + length name + length (body_of s) + length (fields_of es)
      parts = simp length-append (omega arith)

read_object-wire :
    (spare : Bytes) (es : Entries) (f : ℕ) (rest : Bytes)
    → AreWritable es
    → count_entries es < 2 ^ 30
    → 3 * length (fields_of es) + 2 < f
    → read_object spare f (encoding (count_entries es) ++ (fields_of es ++ rest))
      ≡ ok (read_back es, rest)
unfolding read_object
read_object-wire spare es zero rest w small le = absurd (omega arith)
read_object-wire spare es (suc f) rest w small le = rw (
  read_var_int-encoding spare (count_entries es) (fields_of es ++ rest) small,
  read_fields-wire spare es f rest w (omega arith),
)

pub four_bytes : (v : ℕ) (more : Bytes) → ltb (length (le_bytes 4 v ++ more)) 4 ≡ false
four_bytes v more =
    le→ltb _ _ (omega (arith, length-append (le_bytes 4 v) more, length-le_bytes 4 v))

pub parse-wire :
    (spare : Bytes) (es : Entries) (rest : Bytes)
    → AreWritable es
    → count_entries es < 2 ^ 30
    → new_portable_storage_from_bytes spare (storage_wire es ++ rest) ≡ ok (read_back es)
unfolding new_portable_storage_from_bytes storage_wire
parse-wire spare es rest w small = simp (
  append_assoc,
  slice_uint-front {E = Error} spare 4 signature_a (omega arith),
  slice_uint-front {E = Error} spare 4 signature_b (omega arith),
  four_bytes signature_a,
  read_object-wire spare es (enough (encoding (count_entries es) ++ (fields_of es ++ rest))) rest w
      small fuel,
)
  where
    fuel :
        3 * length (fields_of es) + 2
        < enough (encoding (count_entries es) ++ (fields_of es ++ rest))
    fuel = simp length-append (omega arith)

-- A storage of writable entries is written with no panic, and parsing the bytes, whatever follows
-- them and whatever the capacity of the slice, gives its entries back, each with the value that its Serializable stands for.
pub parse-storage_bytes :
    (spare : Bytes) (es : Entries) (rest : Bytes)
    → AreWritable es
    → count_entries es < 2 ^ 30
    → (bytes : Bytes) × (storage_bytes es ≡ ok bytes)
      × (new_portable_storage_from_bytes spare (bytes ++ rest) ≡ ok (read_back es))
parse-storage_bytes spare es rest w small =
    (storage_wire es, storage_bytes-wire es w small, parse-wire spare es rest w small)
