-- ===== src/Levin/Entry/Laws.antt =====
-- The accessors return or panic.
use go_monero.Base.{Finishes, holds, panicked}
use go_monero.Levin.Entry.{
  Value, nil_value, uint8, uint16, uint32, uint64, int64, string, bool, object, as_string, as_uint8,
  as_uint16, as_uint32, as_uint64, as_entries,
}

pub as_string-Finishes : (v : Value) → Finishes (as_string v)
unfolding as_string
as_string-Finishes nil_value = panicked
as_string-Finishes (uint8 n) = panicked
as_string-Finishes (uint16 n) = panicked
as_string-Finishes (uint32 n) = panicked
as_string-Finishes (uint64 n) = panicked
as_string-Finishes (int64 n) = panicked
as_string-Finishes (string s) = holds tt
as_string-Finishes (bool b) = panicked
as_string-Finishes (object es) = panicked

pub as_uint8-Finishes : (v : Value) → Finishes (as_uint8 v)
unfolding as_uint8
as_uint8-Finishes nil_value = panicked
as_uint8-Finishes (uint8 n) = holds tt
as_uint8-Finishes (uint16 n) = panicked
as_uint8-Finishes (uint32 n) = panicked
as_uint8-Finishes (uint64 n) = panicked
as_uint8-Finishes (int64 n) = panicked
as_uint8-Finishes (string s) = panicked
as_uint8-Finishes (bool b) = panicked
as_uint8-Finishes (object es) = panicked

pub as_uint16-Finishes : (v : Value) → Finishes (as_uint16 v)
unfolding as_uint16
as_uint16-Finishes nil_value = panicked
as_uint16-Finishes (uint8 n) = panicked
as_uint16-Finishes (uint16 n) = holds tt
as_uint16-Finishes (uint32 n) = panicked
as_uint16-Finishes (uint64 n) = panicked
as_uint16-Finishes (int64 n) = panicked
as_uint16-Finishes (string s) = panicked
as_uint16-Finishes (bool b) = panicked
as_uint16-Finishes (object es) = panicked

pub as_uint32-Finishes : (v : Value) → Finishes (as_uint32 v)
unfolding as_uint32
as_uint32-Finishes nil_value = panicked
as_uint32-Finishes (uint8 n) = panicked
as_uint32-Finishes (uint16 n) = panicked
as_uint32-Finishes (uint32 n) = holds tt
as_uint32-Finishes (uint64 n) = panicked
as_uint32-Finishes (int64 n) = panicked
as_uint32-Finishes (string s) = panicked
as_uint32-Finishes (bool b) = panicked
as_uint32-Finishes (object es) = panicked

pub as_uint64-Finishes : (v : Value) → Finishes (as_uint64 v)
unfolding as_uint64
as_uint64-Finishes nil_value = panicked
as_uint64-Finishes (uint8 n) = panicked
as_uint64-Finishes (uint16 n) = panicked
as_uint64-Finishes (uint32 n) = panicked
as_uint64-Finishes (uint64 n) = holds tt
as_uint64-Finishes (int64 n) = panicked
as_uint64-Finishes (string s) = panicked
as_uint64-Finishes (bool b) = panicked
as_uint64-Finishes (object es) = panicked

pub as_entries-Finishes : (v : Value) → Finishes (as_entries v)
unfolding as_entries
as_entries-Finishes nil_value = panicked
as_entries-Finishes (uint8 n) = panicked
as_entries-Finishes (uint16 n) = panicked
as_entries-Finishes (uint32 n) = panicked
as_entries-Finishes (uint64 n) = panicked
as_entries-Finishes (int64 n) = panicked
as_entries-Finishes (string s) = panicked
as_entries-Finishes (bool b) = panicked
as_entries-Finishes (object es) = holds tt
