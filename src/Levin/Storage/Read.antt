-- ===== src/Levin/Storage/Read.antt =====
-- Reading a portable storage: levin/portable_storage.go, ReadString, ReadObject, ReadArray, ReadAny
-- and NewPortableStorageFromBytes. A Go reader returns the count of bytes that it took, and its
-- caller goes on at that index; the model returns the bytes behind. An index beyond the length panics,
-- a slice expression `bytes[i:j]` beyond the capacity: `spare` is what the array behind the bytes holds
-- between the two. Where a slice has reached beyond the length no bytes are left; the next index
-- panics, as the sub-slice at that index does in Go, and only ReadString slices again before it.
pub mod Fuel
use go_monero.Base.{
  ℕ, zero, suc, ◌+◌, ◌-◌, ◌*◌, ◌^◌, not, [], ◌∷◌, length, ltb, ◌==◌, bit_and, if◌then◌else◌, Result,
  ok, err, panic, out_of_fuel, out_of_range, unknown_type, ◌>>=◌, ◌>>◌, guard,
}
use go_monero.Base.Bytes.{Bytes, cut_byte, cut_uint}
use go_monero.Levin.Slice.{slice, slice_uint}
use go_monero.Base.Int.{to_signed}
use go_monero.Levin.Error.{
  Error, sig_a_out_of_bounds, sig_a_mismatch, sig_b_mismatch, version_mismatch,
}
use go_monero.Levin.Entry.{
  Value, uint8, uint16, uint32, uint64, int64, string, bool, object, unset, Entries, no_entries,
  entry,
}
use go_monero.Levin.Boost.{
  type_int64, type_uint64, type_uint32, type_uint16, type_uint8, type_string, type_bool,
  type_object, flag_array,
}
use go_monero.Levin.VarIn.{read_var_int}
use go_monero.Levin.Storage.{signature_a, signature_b, format_version}

unfoldable pub read_string : Bytes → Bytes → Result Error (Bytes × Bytes)
read_string spare bytes = do
  (str_len, bytes, spare) ← read_var_int spare bytes
  (str, bytes, _) ← slice spare str_len bytes
  ok (str, bytes)

-- `panic(... bytes[idx])` of an unknown type: the index may panic first.
unfoldable pub unknown : Bytes → Result Error (Value × Bytes)
unknown [] = panic out_of_range
unknown (b ∷ bs) = panic unknown_type

abbrev number : (ℕ → Value) → ℕ → Bytes → Result Error (Value × Bytes)
number con k bytes = do (obj, bytes) ← cut_uint k bytes; ok (con obj, bytes)

abbrev one_byte : (ℕ → Value) → Bytes → Result Error (Value × Bytes)
one_byte con bytes = do (b, bytes) ← cut_byte bytes; ok (con b, bytes)

abbrev text : Bytes → Bytes → Result Error (Value × Bytes)
text spare bytes = do (s, bytes) ← read_string spare bytes; ok (string s, bytes)

-- The cases of ReadAny behind those for arrays and objects.
unfoldable pub read_scalar : Bytes → ℕ → Bytes → Result Error (Value × Bytes)
unfolding unknown cut_byte
read_scalar spare ttype bytes =
    if ttype == type_uint8
    then one_byte uint8 bytes
    else if ttype == type_uint16
    then number uint16 2 bytes
    else if ttype == type_uint32
    then number uint32 4 bytes
    else if ttype == type_uint64
    then number uint64 8 bytes
    else if ttype == type_int64
    then number (λ u. int64 (to_signed (2 ^ 63) u)) 8 bytes
    else if ttype == type_string
    then text spare bytes
    else if ttype == type_bool
    then one_byte (λ b. bool (not (b == 0))) bytes
    else unknown bytes

-- The readers call one another, so each call costs a unit of fuel. `read_fields` and `read_items` are
-- the loops of ReadObject and ReadArray, over the rounds that are left.
unfoldable mutual
  pub read_object : Bytes → ℕ → Bytes → Result Error (Entries × Bytes)
  read_object spare zero bytes = out_of_fuel
  read_object spare (suc f) bytes = do
    (i, bytes, _) ← read_var_int spare bytes
    read_fields spare f i bytes

  pub read_fields : Bytes → ℕ → ℕ → Bytes → Result Error (Entries × Bytes)
  read_fields spare zero i bytes = out_of_fuel
  read_fields spare (suc f) zero bytes = ok (no_entries, bytes)
  read_fields spare (suc f) (suc i) bytes = do
    (len_name, bytes) ← cut_byte bytes
    (name, bytes, _) ← slice spare len_name bytes
    (ttype, bytes) ← cut_byte bytes
    (obj, bytes) ← read_any spare f ttype bytes
    (entries, bytes) ← read_fields spare f i bytes
    ok (entry name unset obj entries, bytes)

  pub read_array : Bytes → ℕ → ℕ → Bytes → Result Error (Entries × Bytes)
  read_array spare zero ttype bytes = out_of_fuel
  read_array spare (suc f) ttype bytes = do
    (i, bytes, _) ← read_var_int spare bytes
    read_items spare f ttype i bytes

  pub read_items : Bytes → ℕ → ℕ → ℕ → Bytes → Result Error (Entries × Bytes)
  read_items spare zero ttype i bytes = out_of_fuel
  read_items spare (suc f) ttype zero bytes = ok (no_entries, bytes)
  read_items spare (suc f) ttype (suc i) bytes = do
    (obj, bytes) ← read_any spare f ttype bytes
    (entries, bytes) ← read_items spare f ttype i bytes
    ok (entry [] unset obj entries, bytes)

  pub read_any : Bytes → ℕ → ℕ → Bytes → Result Error (Value × Bytes)
  read_any spare zero ttype bytes = out_of_fuel
  read_any spare (suc f) ttype bytes =
      let array = do
        (es, bytes) ← read_array spare f (ttype - bit_and ttype flag_array) bytes
        ok (object es, bytes)
      in let root = do (es, bytes) ← read_object spare f bytes; ok (object es, bytes)
        in let scalar = read_scalar spare ttype bytes in
          if not (bit_and ttype flag_array == 0)
          then array
          else if ttype == type_object
          then root
          else scalar

-- A byte pays for three calls at most; see Fuel.
abbrev pub enough : Bytes → ℕ
enough bytes = 3 * length bytes + 3

-- The first check is on the length; the later reads panic where the bytes end, the one of the second
-- signature where the capacity does.
unfoldable pub new_portable_storage_from_bytes : Bytes → Bytes → Result Error Entries
unfolding cut_byte
new_portable_storage_from_bytes spare bytes = do
  guard (not (ltb (length bytes) 4)) sig_a_out_of_bounds
  (sig_a, bytes, spare) ← slice_uint spare 4 bytes
  guard (sig_a == signature_a) sig_a_mismatch
  (sig_b, bytes, spare) ← slice_uint spare 4 bytes
  guard (sig_b == signature_b) sig_b_mismatch
  (version, bytes) ← cut_byte bytes
  guard (version == format_version) version_mismatch
  (entries, bytes) ← read_object spare (enough bytes) bytes
  ok entries
