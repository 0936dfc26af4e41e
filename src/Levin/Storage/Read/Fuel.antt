-- ===== src/Levin/Storage/Read/Fuel.antt =====
-- The readers on any bytes: what they return is well formed, they take a byte each at least, and
-- their fuel always suffices.
use go_monero.Base.{
  ℕ, zero, suc, ◌+◌, ◌*◌, ◌^◌, ◌≤◌, ◌<◌, ◌≡◌, ◌≢◌, refl, not, [], ◌∷◌, length, ◌==◌, bit_and, arith,
  Ensures, holds, panicked, Ensures-bind, Ensures-weaken, Ensures-if, guard-Ensures, Ensures-ok,
  Ensures-ne-out_of_fuel, out_of_fuel, ok,
}
use go_monero.Base.Bytes.{Bytes, IsBytes, cut_byte-Ensures, cut_uint-Ensures}
use go_monero.Levin.Slice.{slice-Sliced, slice_uint-Ensures}
use go_monero.Base.Int.{IsSigned, to_signed, to_signed-IsSigned}
use go_monero.Levin.Error.{sig_a_out_of_bounds, sig_a_mismatch, sig_b_mismatch, version_mismatch}
use go_monero.Levin.Storage.{signature_a, signature_b, format_version}
use go_monero.Levin.Entry.{
  Value, nil_value, uint8, uint16, uint32, uint64, int64, string, bool, object, unset, Entries,
  no_entries, entry,
}
use go_monero.Levin.Boost.{
  type_int64, type_uint64, type_uint32, type_uint16, type_uint8, type_string, type_bool,
  type_object, flag_array,
}
use go_monero.Levin.VarIn.Laws.{read_var_int_takes}
use go_monero.Levin.Storage.Read.{
  read_string, unknown, enough, number, one_byte, read_scalar, read_object, read_fields, read_array,
  read_items, read_any, new_portable_storage_from_bytes,
}

-- The values that a reader can return: numbers within their types, names of at most 255 bytes.
abbrev mutual
  pub IsParsed : Value → Type 0
  IsParsed nil_value = ⊥
  IsParsed (uint8 n) = n < 2 ^ 8
  IsParsed (uint16 n) = n < 2 ^ 16
  IsParsed (uint32 n) = n < 2 ^ 32
  IsParsed (uint64 n) = n < 2 ^ 64
  IsParsed (int64 n) = IsSigned (2 ^ 63) n
  IsParsed (string s) = IsBytes s
  IsParsed (bool b) = Unit {0}
  IsParsed (object es) = AreParsed es

  pub AreParsed : Entries → Type 0
  AreParsed no_entries = Unit {0}
  AreParsed (entry name s v rest) =
      IsBytes name × (length name < 256) × (s ≡ unset) × IsParsed v × AreParsed rest

abbrev pub TakesValue : Bytes → Value × Bytes → Type 0
TakesValue bytes (v, rest) = IsParsed v × (length rest < length bytes) × IsBytes rest

abbrev pub TakesEntries : ℕ → Bytes → Entries × Bytes → Type 0
TakesEntries least bytes (es, rest) =
    AreParsed es × (length rest + least ≤ length bytes) × IsBytes rest

read_string-Ensures :
    (spare bytes : Bytes)
    → IsBytes spare
    → IsBytes bytes
    → Ensures
        (λ (s, rest). IsBytes s × (length rest < length bytes) × IsBytes rest)
        (read_string spare bytes)
unfolding read_string
read_string-Ensures spare bytes sp h =
    Ensures-bind (read_var_int_takes spare bytes sp h) λ (n, b1, behind) (lt, less, _, h1, hb).
      Ensures-bind (slice-Sliced behind n b1 hb h1)
        λ (s, b2, _) (hs, _, len, h2, _). holds (hs, omega arith, h2)

number-Ensures :
    (con : ℕ → Value) (k : ℕ) (bytes : Bytes)
    → ((n : ℕ) → n < 256 ^ suc k → IsParsed (con n))
    → IsBytes bytes
    → Ensures (TakesValue bytes) (number con (suc k) bytes)
number-Ensures con k bytes fits h =
    Ensures-bind (cut_uint-Ensures (suc k) bytes h)
      λ (n, rest) (lt, len, hr). holds (fits n lt, omega arith, hr)

one_byte-Ensures :
    (con : ℕ → Value) (bytes : Bytes)
    → ((n : ℕ) → n < 256 → IsParsed (con n))
    → IsBytes bytes
    → Ensures (TakesValue bytes) (one_byte con bytes)
one_byte-Ensures con bytes fits h =
    Ensures-bind (cut_byte-Ensures bytes h)
      λ (n, rest) (lt, len, hr). holds (fits n lt, omega arith, hr)

unknown-Ensures : (bytes : Bytes) → Ensures (TakesValue bytes) (unknown bytes)
unfolding unknown
unknown-Ensures [] = panicked
unknown-Ensures (b ∷ bs) = panicked

read_scalar-Ensures :
    (spare : Bytes) (ttype : ℕ) (bytes : Bytes)
    → IsBytes spare
    → IsBytes bytes
    → Ensures (TakesValue bytes) (read_scalar spare ttype bytes)
unfolding read_scalar
read_scalar-Ensures spare ttype bytes sp h =
    Ensures-if (ttype == type_uint8) (λ _. one_byte-Ensures uint8 bytes (λ n lt. lt) h)
      λ _.
        Ensures-if (ttype == type_uint16) (λ _. number-Ensures uint16 1 bytes (λ n lt. lt) h)
          λ _.
            Ensures-if (ttype == type_uint32) (λ _. number-Ensures uint32 3 bytes (λ n lt. lt) h)
              λ _.
                Ensures-if (ttype == type_uint64)
                  (λ _. number-Ensures uint64 7 bytes (λ n lt. lt) h)
                  λ _.
                    Ensures-if (ttype == type_int64)
                      (λ _.
                        number-Ensures (λ u. int64 (to_signed (2 ^ 63) u)) 7 bytes
                          (λ n lt. to_signed-IsSigned (2 ^ 63) n lt) h)
                      λ _.
                        Ensures-if (ttype == type_string)
                          (λ _.
                            Ensures-bind (read_string-Ensures spare bytes sp h)
                              λ (s, rest) t. holds t)
                          λ _.
                            Ensures-if (ttype == type_bool)
                              (λ _.
                                one_byte-Ensures (λ b. bool (not (b == 0))) bytes (λ n lt. tt) h)
                              λ _. unknown-Ensures bytes

-- One induction on the fuel, for the five readers.
mutual
  unfolding read_any

  read_object-Ensures :
      (spare : Bytes) (f : ℕ) (bytes : Bytes)
      → IsBytes spare
      → 3 * length bytes + 2 < f
      → IsBytes bytes
      → Ensures (TakesEntries 1 bytes) (read_object spare f bytes)
  read_object-Ensures spare zero bytes sp le h = absurd (omega arith)
  read_object-Ensures spare (suc f) bytes sp le h =
      Ensures-bind (read_var_int_takes spare bytes sp h) λ (i, b1, _) (lt, less, _, h1, _).
        Ensures-weaken (read_fields-Ensures spare f i b1 sp (omega arith) h1)
          λ (es, rest) (p, l, hr). (p, omega arith, hr)

  read_fields-Ensures :
      (spare : Bytes) (f i : ℕ) (bytes : Bytes)
      → IsBytes spare
      → 3 * length bytes + 1 < f
      → IsBytes bytes
      → Ensures (TakesEntries 0 bytes) (read_fields spare f i bytes)
  read_fields-Ensures spare zero i bytes sp le h = absurd (omega arith)
  read_fields-Ensures spare (suc f) zero bytes sp le h = holds (tt, omega arith, h)
  read_fields-Ensures spare (suc f) (suc i) bytes sp le h =
      Ensures-bind (cut_byte-Ensures bytes h) λ (len_name, b1) (small, l1, h1).
        Ensures-bind (slice-Sliced spare len_name b1 sp h1) λ (name, b2, _) (hn, ln, l2, h2, _).
          Ensures-bind (cut_byte-Ensures b2 h2) λ (ttype, b3) (_, l3, h3).
            Ensures-bind (read_any-Ensures spare f ttype b3 sp (omega arith) h3)
              λ (v, b4) (pv, l4, h4).
                Ensures-bind (read_fields-Ensures spare f i b4 sp (omega arith) h4)
                  λ (es, b5) (pe, l5, h5). holds ((hn, omega arith, refl, pv, pe), omega arith, h5)

  read_array-Ensures :
      (spare : Bytes) (f ttype : ℕ) (bytes : Bytes)
      → IsBytes spare
      → 3 * length bytes + 2 < f
      → IsBytes bytes
      → Ensures (TakesEntries 1 bytes) (read_array spare f ttype bytes)
  read_array-Ensures spare zero ttype bytes sp le h = absurd (omega arith)
  read_array-Ensures spare (suc f) ttype bytes sp le h =
      Ensures-bind (read_var_int_takes spare bytes sp h) λ (i, b1, _) (lt, less, _, h1, _).
        Ensures-weaken (read_items-Ensures spare f ttype i b1 sp (omega arith) h1)
          λ (es, rest) (p, l, hr). (p, omega arith, hr)

  read_items-Ensures :
      (spare : Bytes) (f ttype i : ℕ) (bytes : Bytes)
      → IsBytes spare
      → 3 * length bytes + 4 < f
      → IsBytes bytes
      → Ensures (TakesEntries 0 bytes) (read_items spare f ttype i bytes)
  read_items-Ensures spare zero ttype i bytes sp le h = absurd (omega arith)
  read_items-Ensures spare (suc f) ttype zero bytes sp le h = holds (tt, omega arith, h)
  read_items-Ensures spare (suc f) ttype (suc i) bytes sp le h =
      Ensures-bind (read_any-Ensures spare f ttype bytes sp (omega arith) h) λ (v, b1) (pv, l1, h1).
        Ensures-bind (read_items-Ensures spare f ttype i b1 sp (omega arith) h1)
          λ (es, b2) (pe, l2, h2). holds ((tt, omega arith, refl, pv, pe), omega arith, h2)

  read_any-Ensures :
      (spare : Bytes) (f ttype : ℕ) (bytes : Bytes)
      → IsBytes spare
      → 3 * length bytes + 3 < f
      → IsBytes bytes
      → Ensures (TakesValue bytes) (read_any spare f ttype bytes)
  read_any-Ensures spare zero ttype bytes sp le h = absurd (omega arith)
  read_any-Ensures spare (suc f) ttype bytes sp le h =
      Ensures-if (not (bit_and ttype flag_array == 0))
        (λ _.
          Ensures-bind (read_array-Ensures spare f _ bytes sp (omega arith) h)
            λ (es, rest) (p, l, hr). holds (p, omega arith, hr))
        λ _.
          Ensures-if (ttype == type_object)
            (λ _.
              Ensures-bind (read_object-Ensures spare f bytes sp (omega arith) h)
                λ (es, rest) (p, l, hr). holds (p, omega arith, hr))
            (λ _. read_scalar-Ensures spare ttype bytes sp h)

pub parse-Ensures :
    (spare bytes : Bytes)
    → IsBytes spare
    → IsBytes bytes
    → Ensures AreParsed (new_portable_storage_from_bytes spare bytes)
unfolding new_portable_storage_from_bytes
parse-Ensures spare bytes sp h = Ensures-bind (guard-Ensures _ sig_a_out_of_bounds) λ _ _.
    Ensures-bind (slice_uint-Ensures spare 4 bytes sp h) λ (a, b1, spare1) (_, _, h1, sp1).
      Ensures-bind (guard-Ensures (a == signature_a) sig_a_mismatch) λ _ _.
        Ensures-bind (slice_uint-Ensures spare1 4 b1 sp1 h1) λ (b, b2, spare2) (_, _, h2, sp2).
          Ensures-bind (guard-Ensures (b == signature_b) sig_b_mismatch) λ _ _.
            Ensures-bind (cut_byte-Ensures b2 h2) λ (version, b3) (_, _, h3).
              Ensures-bind (guard-Ensures (version == format_version) version_mismatch) λ _ _.
                Ensures-bind (read_object-Ensures spare2 (enough b3) b3 sp2 (omega arith) h3)
                  λ (es, rest) t. holds t.0

-- Parsing any bytes, in a slice of any capacity, ends within the fuel, and the entries that it returns are well formed: the
-- numbers lie in their types, no name is longer than 255 bytes, and no Serializable is set.
pub new_portable_storage_from_bytes_total :
    (spare bytes : Bytes)
    → IsBytes spare
    → IsBytes bytes
    → (new_portable_storage_from_bytes spare bytes ≢ out_of_fuel)
      × ((es : Entries) → new_portable_storage_from_bytes spare bytes ≡ ok es → AreParsed es)
new_portable_storage_from_bytes_total spare bytes sp h = (
  Ensures-ne-out_of_fuel (parse-Ensures spare bytes sp h),
  λ es e. Ensures-ok (parse-Ensures spare bytes sp h) e,
)
