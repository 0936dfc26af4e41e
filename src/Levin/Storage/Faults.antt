-- ===== src/Levin/Storage/Faults.antt =====
-- Where the writers and the readers of a storage do not meet: values that write nothing, and slices
-- that end early.
use native.Mathlib.Nat.{mod-eq_of_lt}
use go_monero.Base.{
  ℕ, zero, suc, ◌≤◌, ◌<◌, ◌≡◌, refl, [], ◌∷◌, ◌++◌, length, arith, lt→ltb, Result, ok, err, panic,
  ◌-◌, drop, take, leb, ◌==◌, if◌then◌else◌, out_of_range,
}
use go_monero.Base.Bytes.{Bytes, le_bytes, le_value}
use go_monero.Levin.Slice.{slice, slice_uint, slice-append, slice_uint-front}
use go_monero.Levin.Error.{Error, sig_a_out_of_bounds, sig_b_mismatch}
use go_monero.Levin.Entry.{Value, Serializable, Entries, no_entries, entry, count_entries}
use go_monero.Levin.Boost.{must_var_in}
use go_monero.Levin.VarIn.{var_in, read_var_int}
use go_monero.Levin.Storage.{serial_bytes, storage_bytes, signature_a, signature_b}
use go_monero.Levin.Storage.Wire.Reading.{four_bytes}
use go_monero.Levin.Storage.Read.{enough, read_object, read_any, new_portable_storage_from_bytes}

drop_all : (n : ℕ) (bs : Bytes) → length bs ≤ n → drop n bs ≡ []
drop_all zero [] h = refl
drop_all (suc n) [] h = refl
drop_all zero (b ∷ bs) h = absurd (omega arith)
drop_all (suc n) (b ∷ bs) h = drop_all n bs (omega arith)

-- Four bytes that end beyond the length: of the capacity where it has them.
slice_uint_short :
    (spare rest : Bytes)
    → length rest < 4
    → slice_uint {E = Error} spare 4 rest ≡ (
        if leb 4 (length (rest ++ spare))
        then ok (le_value (take 4 (rest ++ spare)), [], drop (4 - length rest) spare)
        else panic out_of_range)
unfolding slice_uint slice
slice_uint_short spare rest h = rw (drop_all 4 rest (omega arith)) (ground arith)

-- What the parser makes of fewer than four bytes behind the first signature.
abbrev pub second_signature : Bytes → Bytes → Result Error Entries
second_signature spare rest =
    if leb 4 (length (rest ++ spare))
    then (if le_value (take 4 (rest ++ spare)) == signature_b
        then panic out_of_range
        else err sig_b_mismatch)
    else panic out_of_range

-- Only the read of the first signature looks at the length. A storage that ends within the second
-- signature makes the parser panic where the capacity of the slice ends there too; where the capacity
-- reaches on, the parser compares bytes that are not of the storage, and returns that the second
-- signature does not match or, where they complete it, panics at the version. One that ends within the
-- first signature is an error, with any capacity.
pub short_storage :
    (spare rest : Bytes)
    → length rest < 4
    → (new_portable_storage_from_bytes spare (le_bytes 4 signature_a ++ rest)
        ≡ second_signature spare rest)
      × (new_portable_storage_from_bytes spare rest ≡ err sig_a_out_of_bounds)
unfolding new_portable_storage_from_bytes
short_storage spare rest h = (
  rw
      (
        four_bytes signature_a rest,
        slice_uint-front {E = Error} spare 4 signature_a (omega arith) rest,
        slice_uint_short spare rest h,
      )
      (ground arith),
  rw (lt→ltb _ _ h),
)

-- One entry whose name ends the slice.
read_unnamed :
    (spare : Bytes) (f : ℕ) (name : Bytes)
    → 2 ≤ f
    → read_object spare f (4 ∷ length name ∷ (name ++ [])) ≡ panic out_of_range
unfolding read_any read_var_int
read_unnamed spare zero name h = absurd (omega arith)
read_unnamed spare (suc zero) name h = absurd (omega arith)
read_unnamed spare (suc (suc f)) name h =
    rw (slice-append {E = Error} spare name [] (length name) refl)

-- An entry whose value writes nothing (a hash that is no hash, an empty list of ids) has a name and no
-- type byte: the storage of this one entry is written with no error, and the parser panics on it,
-- whatever the capacity of the slice.
pub empty_value_breaks_storage :
    (spare name : Bytes) (s : Serializable) (v : Value)
    → length name < 256
    → serial_bytes s ≡ ok []
    → (bytes : Bytes) × (storage_bytes (entry name s v no_entries) ≡ ok bytes)
      × (new_portable_storage_from_bytes spare bytes ≡ panic out_of_range)
unfolding storage_bytes serial_bytes must_var_in var_in count_entries
    new_portable_storage_from_bytes
empty_value_breaks_storage spare name s v small e = (
  le_bytes 4 signature_a ++ (le_bytes 4 signature_b ++ (1 ∷ 4 ∷ length name ∷ (name ++ []))),
  rw (e, mod-eq_of_lt small),
  simp (
    four_bytes signature_a,
    slice_uint-front {E = Error} spare 4 signature_a (omega arith),
    slice_uint-front {E = Error} spare 4 signature_b (omega arith),
    read_unnamed spare (enough (4 ∷ length name ∷ (name ++ []))) name (omega arith),
  ),
)
