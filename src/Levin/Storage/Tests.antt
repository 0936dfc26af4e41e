-- ===== src/Levin/Storage/Tests.antt =====
-- Runs of the writers and readers, and the theorems at concrete storages.
use go_monero.Base.{◌≡◌, ◌≢◌, refl, [], ◌∷◌, ◌++◌, arith, ok, err, panic, out_of_fuel, out_of_range}
use go_monero.Base.Bytes.{Bytes, codes, le_bytes, le_value, cut, cut_uint}
use go_monero.Base.Hex.{hex_decode}
use go_monero.Levin.Error.{sig_a_out_of_bounds, sig_b_mismatch}
use go_monero.Levin.Entry.{
  uint8, uint64, object, boost_uint8, boost_hash, boost_uint64_array, section, unset, nil_value,
  Entries, no_entries, entry, count_entries,
}
use go_monero.Levin.Boost.{uint8_bytes, hash_bytes, must_var_in, uint64_array_bytes, join_uint64}
use go_monero.Levin.Slice.{slice, slice_uint}
use go_monero.Levin.VarIn.{var_in, read_var_int}
use go_monero.Levin.Storage.{serial_bytes, storage_bytes, signature_a}
use go_monero.Levin.Storage.Read.{read_scalar, read_any, new_portable_storage_from_bytes}
use go_monero.Levin.Storage.Read.Fuel.{AreParsed, new_portable_storage_from_bytes_total}
use go_monero.Levin.Storage.Faults.{empty_value_breaks_storage, second_signature, short_storage}
use go_monero.Levin.Storage.Wire.{read_back}
use go_monero.Levin.Storage.Wire.Reading.{parse-storage_bytes}

-- { a: { b: uint8 7 }, c: [1, 2] }
abbrev nested : Entries
nested =
    entry (codes "a") (section (entry (codes "b") (boost_uint8 7) nil_value no_entries)) nil_value
      (entry (codes "c") (boost_uint64_array (1 ∷ 2 ∷ [])) nil_value no_entries)

abbrev nested_bytes : Bytes
nested_bytes =
    0x01 ∷ 0x11 ∷ 0x01 ∷ 0x01 ∷ 0x01 ∷ 0x01 ∷ 0x02 ∷ 0x01 ∷ 0x01 ∷ 0x08 ∷ 1 ∷ 97 ∷ 0x0c ∷ 0x04 ∷ 1
    ∷ 98 ∷ 0x08 ∷ 7 ∷ 1 ∷ 99 ∷ 0x85 ∷ 0x08 ∷ 1 ∷ 0 ∷ 0 ∷ 0 ∷ 0 ∷ 0 ∷ 0 ∷ 0 ∷ 2 ∷ 0 ∷ 0 ∷ 0 ∷ 0 ∷ 0
    ∷ 0 ∷ 0 ∷ []

nested_written : storage_bytes nested ≡ ok nested_bytes
unfolding storage_bytes serial_bytes must_var_in var_in count_entries uint8_bytes uint64_array_bytes
    join_uint64 le_bytes
nested_written = refl

nested_read :
    new_portable_storage_from_bytes [] nested_bytes
    ≡ ok (
        entry (codes "a") unset (object (entry (codes "b") unset (uint8 7) no_entries)) (
          entry
            (codes "c")
            unset
            (object (entry [] unset (uint64 1) (entry [] unset (uint64 2) no_entries)))
            no_entries))
unfolding new_portable_storage_from_bytes read_any read_scalar read_var_int slice slice_uint cut
    cut_uint le_value
nested_read = refl

parse-storage_bytes_example :
    (bytes : Bytes) × (storage_bytes nested ≡ ok bytes)
    × (new_portable_storage_from_bytes (8 ∷ []) (bytes ++ (9 ∷ [])) ≡ ok (read_back nested))
unfolding count_entries
parse-storage_bytes_example =
    parse-storage_bytes (8 ∷ []) nested (9 ∷ []) (omega arith) (omega arith)

new_portable_storage_from_bytes_total_example :
    (new_portable_storage_from_bytes (8 ∷ []) nested_bytes ≢ out_of_fuel)
    × ((es : Entries)
        → new_portable_storage_from_bytes (8 ∷ []) nested_bytes ≡ ok es
        → AreParsed es)
new_portable_storage_from_bytes_total_example =
    new_portable_storage_from_bytes_total (8 ∷ []) nested_bytes (omega arith) (omega arith)

-- A hash that is no hexadecimal text, and a slice of three bytes behind the first signature.
empty_value_breaks_storage_example :
    (bytes : Bytes) × (storage_bytes
        (entry (codes "top_id") (boost_hash (codes "zz")) nil_value no_entries)
      ≡ ok bytes)
    × (new_portable_storage_from_bytes [] bytes ≡ panic out_of_range)
unfolding serial_bytes hash_bytes hex_decode
empty_value_breaks_storage_example =
    empty_value_breaks_storage [] (codes "top_id") (boost_hash (codes "zz")) nil_value (omega arith)
      refl

-- A buffer that has zero bytes behind the storage.
short_storage_example :
    (new_portable_storage_from_bytes (0 ∷ 0 ∷ []) (le_bytes 4 signature_a ++ (1 ∷ 1 ∷ 2 ∷ []))
      ≡ second_signature (0 ∷ 0 ∷ []) (1 ∷ 1 ∷ 2 ∷ []))
    × (new_portable_storage_from_bytes (0 ∷ 0 ∷ []) (1 ∷ 1 ∷ 2 ∷ []) ≡ err sig_a_out_of_bounds)
short_storage_example = short_storage (0 ∷ 0 ∷ []) (1 ∷ 1 ∷ 2 ∷ []) (omega arith)

-- Its second signature does not match; with no capacity behind it, the parser panics.
short_mismatch : second_signature (0 ∷ 0 ∷ []) (1 ∷ 1 ∷ 3 ∷ []) ≡ err sig_b_mismatch
unfolding le_value
short_mismatch = refl

short_panic : second_signature [] (1 ∷ 1 ∷ 2 ∷ []) ≡ panic out_of_range
short_panic = refl
