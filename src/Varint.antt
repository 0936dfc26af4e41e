-- ===== src/Varint.antt =====
-- The variable-length integers of Monero's blobs: seven bits a byte, lowest group first.
-- util/crypto.go (EncodeVarint), util/keyimage.go (Uint64ToBytes) and
-- levin/portable_storage.go (ReadVarint, ReadUint8).
pub mod RoundTrip
pub mod Reading
mod Tests
use mathlib.Core.Logic.{dite}
use mathlib.Core.WellFounded.{Acc}
use native.Mathlib.Decide.{dec_lt, dec_le}
use go_monero.Base.{
  ℕ, ◌+◌, ◌*◌, ◌/◌, ◌%◌, ◌^◌, ◌≤◌, ◌<◌, [], ◌∷◌, bit_and, bit_or, arith, leb, ◌==◌, if◌then◌else◌,
  Result, ok, err,
}
use go_monero.Base.Bytes.{Bytes}
use go_monero.Base.Order.{lt_wf}

-- A uint64.
abbrev pub IsU64 : ℕ → Type 0
IsU64 n = n < 2 ^ 64

shift_shrinks : (n : ℕ) → 0 < n / 128 → n / 128 < n
shift_shrinks n h = omega arith

-- One round writes a byte; the top bit is set while the shifted number is not 0.
encode_loop : (n : ℕ) → Acc ◌<◌ n → Bytes
encode_loop n (Acc.intro _ smaller) =
    let b = bit_and n 0x7f in
    dite (dec_lt 0 (n / 128))
      (λ more. bit_or b 0x80 ∷ encode_loop (n / 128) (smaller _ (shift_shrinks n more)))
      (λ _. b ∷ [])

unfoldable pub encode_varint : ℕ → Bytes
unfolding encode_loop shift_shrinks lt_wf dec_lt
encode_varint n = encode_loop n (lt_wf.apply n)

long_shrinks : (n : ℕ) → 0x80 ≤ n → n / 128 < n
long_shrinks n h = omega arith

-- `for ; num >= 0x80; num >>= 7`, and then the last byte.
to_bytes_loop : (num : ℕ) → Acc ◌<◌ num → Bytes
to_bytes_loop num (Acc.intro _ smaller) =
    dite (dec_le 0x80 num)
      (λ long.
        bit_or (bit_and num 0x7f) 0x80 % 256
        ∷ to_bytes_loop (num / 128) (smaller _ (long_shrinks num long)))
      (λ _. num % 256 ∷ [])

unfoldable pub uint64_to_bytes : ℕ → Bytes
unfolding to_bytes_loop long_shrinks lt_wf dec_le
uint64_to_bytes num = to_bytes_loop num (lt_wf.apply num)

-- The errors of the two readers; `eof` is io.EOF.
pub data ReadError : Type 0 where
  varint_too_long eof : ReadError

-- A *bytes.Reader, as the bytes not read yet. A read moves it also where it fails.
abbrev pub Reader : Type 0
Reader = Bytes

unfoldable pub read_uint8 : Reader → Result ReadError ℕ × Reader
read_uint8 [] = (err eof, [])
read_uint8 (b ∷ bs) = (ok b, bs)

-- `result |= uint64(b&0x7F) << shift`
abbrev pub add_group : ℕ → ℕ → ℕ → ℕ
add_group result b shift = bit_or result (bit_and b 0x7f * 2 ^ shift % 2 ^ 64)

read_loop : Reader → ℕ → ℕ → Result ReadError ℕ × Reader
read_loop [] result shift = if leb 64 shift then (err varint_too_long, []) else (err eof, [])
read_loop (b ∷ bs) result shift =
    let result' = add_group result b shift in
    let more = read_loop bs result' (shift + 7) in
    if leb 64 shift
    then (err varint_too_long, b ∷ bs)
    else if bit_and b 0x80 == 0
    then (ok result', bs)
    else more

unfoldable pub read_varint : Reader → Result ReadError ℕ × Reader
unfolding read_loop
read_varint reader = read_loop reader 0 0

-- `v, _ := f(reader)`: the parsers drop the error, and the value is 0 then.
abbrev pub or_zero : Result ReadError ℕ → ℕ
or_zero (ok n) = n
or_zero (err e) = 0
or_zero _ = 0
