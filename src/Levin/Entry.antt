-- ===== src/Levin/Entry.antt =====
-- The entries of a portable storage, as they are built for writing and as they are read: the types
-- Entry, Entries, Section and Serializable of levin/portable_storage.go and those of levin/boost.go.
pub mod Laws
use go_monero.Base.{ℕ, suc, Bool, List, Result, ok, panic, wrong_type}
use go_monero.Base.Bytes.{Bytes}
use go_monero.Base.Int.{ℤ}
use go_monero.Levin.Error.{Error}

mutual
  -- What the field `Value interface{}` may hold; `nil_value` is the nil interface.
  pub data Value : Type 0 where
    nil_value : Value
    uint8 uint16 uint32 uint64 : ℕ → Value
    int64 : ℤ → Value
    string : Bytes → Value
    bool : Bool → Value
    object : Entries → Value

  -- What the field `Serializable` may hold; `unset` is the nil interface.
  pub data Serializable : Type 0 where
    unset : Serializable
    boost_byte boost_uint8 boost_uint16 boost_uint32 boost_uint64 : ℕ → Serializable
    boost_string boost_hash : Bytes → Serializable
    boost_block_ids boost_block : List Bytes → Serializable
    boost_tx_ids boost_uint64_array : List ℕ → Serializable
    boost_bool : Bool → Serializable
    section : Entries → Serializable
    bare_entries : Entries → Serializable

  -- A slice of entries: the name, the two fields, and the entries behind.
  pub data Entries : Type 0 where
    no_entries : Entries
    entry : Bytes → Serializable → Value → Entries → Entries

-- `len(entries)`.
unfoldable pub count_entries : Entries → ℕ
count_entries no_entries = 0
count_entries (entry name s v rest) = suc (count_entries rest)

-- The methods that read an entry's value; each panics at a value of another type.
unfoldable pub as_string : Value → Result Error Bytes
as_string (string s) = ok s
as_string _ = panic wrong_type

unfoldable pub as_uint8 : Value → Result Error ℕ
as_uint8 (uint8 n) = ok n
as_uint8 _ = panic wrong_type

unfoldable pub as_uint16 : Value → Result Error ℕ
as_uint16 (uint16 n) = ok n
as_uint16 _ = panic wrong_type

unfoldable pub as_uint32 : Value → Result Error ℕ
as_uint32 (uint32 n) = ok n
as_uint32 _ = panic wrong_type

unfoldable pub as_uint64 : Value → Result Error ℕ
as_uint64 (uint64 n) = ok n
as_uint64 _ = panic wrong_type

unfoldable pub as_entries : Value → Result Error Entries
as_entries (object es) = ok es
as_entries _ = panic wrong_type
