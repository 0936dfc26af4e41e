-- ===== src/Address.antt =====
-- Addresses in util/crypto.go: DecodeAddress, IsSubAddress, ExtractPaymentID and EqualBytes.
-- The hash function Keccak256 is a parameter.
pub mod Format
pub mod RoundTrip
pub mod Sound
mod Tests
use go_monero.Base.{
  ℕ, Bool, true, false, ◌&&◌, ◌||◌, Option, none, some, [], ◌∷◌, length, take, drop, ltb, ◌==◌,
  if◌then◌else◌, Result, ok, err, panic, out_of_fuel, ◌>>=◌, ◌>>◌, guard,
}
use go_monero.Base.Bytes.{Bytes, cut}
use go_monero.Base58.{Base58Error, decode_monero_base58}

pub data AddressError : Type 0 where
  not_base58 : Base58Error → AddressError
  too_short unknown_format checksum_mismatch : AddressError

-- An error that is passed on as it is.
unfoldable pub decoded : Bytes → Result AddressError Bytes
decoded addr = elim (decode_monero_base58 addr) [
  | ok b ↦ ok b
  | err e ↦ err (not_base58 e)
  | panic p ↦ panic p
  | out_of_fuel ↦ out_of_fuel
]

-- The loop of EqualBytes, over slices of one length.
unfoldable pub equal_loop : Bytes → Bytes → Bool
equal_loop [] b = true
equal_loop (x ∷ a) [] = true
equal_loop (x ∷ a) (y ∷ b) = let rest = equal_loop a b in if x == y then rest else false

unfoldable pub equal_bytes : Bytes → Bytes → Bool
unfolding equal_loop
equal_bytes a b = if length a == length b then equal_loop a b else false

-- `b[0]` of bytes that are there.
unfoldable pub network_byte : Bytes → ℕ
network_byte [] = 0
network_byte (n ∷ b) = n

unfoldable pub is_standard : Bytes → Bool
is_standard b = length b == 69 && (network_byte b == 0x12 || network_byte b == 0x2A)

unfoldable pub is_integrated : Bytes → Bool
is_integrated b = length b == 77 && network_byte b == 0x13

-- The keys, once the checksum behind `n` bytes is the one that they hash to.
unfoldable pub checked_keys : (Bytes → Bytes) → ℕ → Bytes → Result AddressError (Bytes × Bytes)
checked_keys keccak256 n b = do
  (sum, _) ← cut 4 (keccak256 (take n b))
  guard (equal_bytes sum (take 4 (drop n b))) checksum_mismatch
  ok (take 32 (drop 1 b), take 32 (drop 33 b))

unfoldable pub keys_of_bytes : (Bytes → Bytes) → Bytes → Result AddressError (Bytes × Bytes)
keys_of_bytes keccak256 b =
    if ltb (length b) 69
    then err too_short
    else if is_standard b
    then checked_keys keccak256 65 b
    else if is_integrated b
    then checked_keys keccak256 73 b
    else err unknown_format

unfoldable pub decode_address : (Bytes → Bytes) → Bytes → Result AddressError (Bytes × Bytes)
decode_address keccak256 addr = do b ← decoded addr; keys_of_bytes keccak256 b

unfoldable pub payment_id_of : Bytes → Result AddressError (Option Bytes)
payment_id_of b =
    if ltb (length b) 69
    then err too_short
    else if is_integrated b
    then ok (some (take 8 (drop 65 b)))
    else ok none

unfoldable pub extract_payment_id : Bytes → Result AddressError (Option Bytes)
extract_payment_id addr = do b ← decoded addr; payment_id_of b

unfoldable pub has_sub_byte : Bytes → Bool
has_sub_byte b = if ltb (length b) 69 then false else network_byte b == 0x2A

-- An error of the decoder makes it no subaddress; a panic is one.
unfoldable pub is_sub_address : Bytes → Result AddressError Bool
is_sub_address addr = elim (decode_monero_base58 addr) [
  | ok b ↦ ok (has_sub_byte b)
  | err e ↦ ok false
  | panic p ↦ panic p
  | out_of_fuel ↦ out_of_fuel
]
