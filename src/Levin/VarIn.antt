-- ===== src/Levin/VarIn.antt =====
-- The size-marked integers of epee's portable storage: the two low bits of the first byte say
-- whether 1, 2 or 4 bytes hold the number. levin/portable_storage.go, VarIn and ReadVarInt.
-- A Go `int` that is a length is a number here; the model has no negative argument.
pub mod Laws
mod Tests
use go_monero.Base.{
  ℕ, ◌*◌, ◌/◌, ◌%◌, ◌^◌, ◌≡◌, [], ◌∷◌, bit_and, bit_or, leb, ◌==◌, if◌then◌else◌, Result, ok, err,
  panic, int64_varint, malformed_mask, ◌>>=◌,
}
use go_monero.Base.Bytes.{Bytes, le_bytes, cut_byte}
use go_monero.Levin.Slice.{slice_uint}
use go_monero.Levin.Error.{Error, int_too_big}

abbrev pub raw_size_mark_mask : ℕ
raw_size_mark_mask = 0x03

abbrev pub raw_size_mark_byte : ℕ
raw_size_mark_byte = 0x00

abbrev pub raw_size_mark_word : ℕ
raw_size_mark_word = 0x01

abbrev pub raw_size_mark_dword : ℕ
raw_size_mark_dword = 0x02

abbrev pub raw_size_mark_int64 : ℕ
raw_size_mark_int64 = 0x03

-- `uintW(i) << 2 | mark`
abbrev marked : ℕ → ℕ → ℕ → ℕ
marked width i mark = bit_or (i % 2 ^ width * 4 % 2 ^ width) mark

unfoldable pub var_in : ℕ → Result Error Bytes
var_in i =
    if leb i 63
    then ok (marked 8 i raw_size_mark_byte ∷ [])
    else if leb i 16383
    then ok (le_bytes 2 (marked 16 i raw_size_mark_word))
    else if leb i 1073741823
    then ok (le_bytes 4 (marked 32 i raw_size_mark_dword))
    else err int_too_big

-- `b[0:2]` and `b[0:4]`, which may reach beyond the length into `spare`.
abbrev read_scaled : Bytes → ℕ → Bytes → Result Error (ℕ × Bytes × Bytes)
read_scaled spare k b = do (v, rest, behind) ← slice_uint spare k b; ok (v / 4, rest, behind)

-- The Go function returns the count of bytes read; the model, the bytes behind them, up to the length
-- and from there up to the capacity.
unfoldable pub read_var_int : Bytes → Bytes → Result Error (ℕ × Bytes × Bytes)
unfolding cut_byte
read_var_int spare b = do
  (first, rest) ← cut_byte b
  let size_mask = bit_and first raw_size_mark_mask
  if size_mask == raw_size_mark_byte
      then ok (first / 4, rest, spare)
      else (if size_mask == raw_size_mark_word
          then read_scaled spare 2 b
          else (if size_mask == raw_size_mark_dword
              then read_scaled spare 4 b
              else (if size_mask == raw_size_mark_int64
                  then panic int64_varint
                  else panic malformed_mask)))
