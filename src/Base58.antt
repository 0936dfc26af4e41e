-- ===== src/Base58.antt =====
-- Monero's base58 in util/crypto.go: the table b58Map and decodeMoneroBase58.
pub mod Trim
pub mod Digits
pub mod RoundTrip
pub mod Lengths
mod Tests
use go_monero.Base.{
  ℕ, zero, suc, ◌+◌, ◌*◌, ◌/◌, ◌%◌, Option, none, some, List, [], ◌∷◌, ◌++◌, length, drop, ltb,
  ◌==◌, if◌then◌else◌, Result, ok, err, out_of_fuel, ◌>>=◌,
}
use go_monero.Base.Bytes.{Bytes, codes, cut}
use go_monero.Base.Space.{trim_space}

pub data Base58Error : Type 0 where
  empty_string unexpected_length invalid_char : Base58Error

abbrev pub monero_base58_alphabet : Bytes
monero_base58_alphabet = codes "123456789ABCDEFGHJKLMNPQRSTUVWXYZabcdefghijkmnopqrstuvwxyz"

-- The place of a character, counted from `i`.
unfoldable pub place : ℕ → ℕ → Bytes → Option ℕ
place i c [] = none
place i c (d ∷ ds) = if c == d then some i else place (suc i) c ds

-- The table that `init` fills; `none` is its -1.
unfoldable pub b58_map : ℕ → Option ℕ
unfolding place
b58_map c = place 0 c monero_base58_alphabet

-- The loop over a chunk's characters.
unfoldable pub chunk_value : ℕ → Bytes → Result Base58Error ℕ
chunk_value val [] = ok val
chunk_value val (ch ∷ chunk) = elim (b58_map ch) [
  | none ↦ err invalid_char
  | some idx ↦ chunk_value (val * 58 + idx) chunk
]

-- The loop that fills `buf` from its end, `j` bytes of it.
unfoldable pub be_bytes : ℕ → ℕ → Bytes
be_bytes zero tmp = []
be_bytes (suc j) tmp = be_bytes j (tmp / 256) ++ (tmp % 256) ∷ []

-- A chunk of so many characters and bytes, and the rounds that follow it.
unfoldable pub read_chunk :
    (Bytes → Result Base58Error Bytes) → ℕ → ℕ → Bytes → Result Base58Error Bytes
read_chunk rest chars bytes s = do
  (chunk, s') ← cut chars s
  val ← chunk_value 0 chunk
  out ← rest s'
  ok (be_bytes bytes val ++ out)

-- The rounds of the loop; each takes characters, so the length is fuel enough.
unfoldable pub chunks : ℕ → Bytes → Result Base58Error Bytes
chunks fuel [] = ok []
chunks zero (c ∷ s) = out_of_fuel
chunks (suc fuel) (c ∷ s) =
    if ltb 7 (suc (length s))
    then read_chunk (chunks fuel) 11 8 (c ∷ s)
    else if suc (length s) == 7
    then read_chunk (chunks fuel) 7 5 (c ∷ s)
    else err unexpected_length

-- On the trimmed text.
unfoldable pub decode_trimmed : Bytes → Result Base58Error Bytes
decode_trimmed [] = err empty_string
decode_trimmed (c ∷ s) = chunks (suc (length s)) (c ∷ s)

unfoldable pub decode_monero_base58 : Bytes → Result Base58Error Bytes
decode_monero_base58 s = decode_trimmed (trim_space s)
