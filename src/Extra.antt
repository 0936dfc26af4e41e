-- ===== src/Extra.antt =====
-- The extra field of a transaction: ParseTxExtra of util/crypto.go, and the field that
-- CalcExtra of types/tx2.go writes.
pub mod Sizes
pub mod RoundTrip
mod Tests
use go_monero.Base.{
  ℕ, zero, suc, ◌/◌, ◌%◌, Option, none, some, List, [], ◌∷◌, ◌++◌, length, take, drop, ltb, leb,
  ◌==◌, Bool, ◌&&◌, if◌then◌else◌, Result, ok, err, out_of_fuel, ◌>>=◌,
}
use go_monero.Base.Bytes.{Bytes}

abbrev pub tx_extra_tag_pubkey : ℕ
tx_extra_tag_pubkey = 0x01

abbrev pub tx_extra_nonce : ℕ
tx_extra_nonce = 0x02

abbrev pub tx_extra_additional_pubkeys : ℕ
tx_extra_additional_pubkeys = 0x04

abbrev pub tx_extra_nonce_payment_id : ℕ
tx_extra_nonce_payment_id = 0x00

abbrev pub tx_extra_nonce_enc_payment_id : ℕ
tx_extra_nonce_enc_payment_id = 0x01

pub data ExtraError : Type 0 where
  truncated_pubkey nonce_length_missing nonce_truncated : ExtraError
  keys_length_missing invalid_additional_keys : ExtraError

-- The named results; `none` is a nil slice.
pub record Extra : Type 0 where
  pub tx_pub_key : Option Bytes
  pub additional_keys : List Bytes
  pub pid : Option Bytes
  pub enc_pid : Option Bytes

-- What a round of the loop ends with: a return, or the bytes from the new `i` on.
pub data Next : Type 0 where
  stop : Extra → Next
  continue : Extra → Bytes → Next

unfoldable pub read_pubkey : Extra → Bytes → Result ExtraError Next
read_pubkey e rest =
    if ltb (length rest) 32
    then err truncated_pubkey
    else ok (continue (record e { tx_pub_key = some (take 32 rest) }) (drop 32 rest))

unfoldable pub read_payment_id : Extra → Bytes → Extra
read_payment_id e [] = e
read_payment_id e (kind ∷ value) =
    if kind == tx_extra_nonce_payment_id
    then (if leb 32 (length value) then record e { pid = some (take 32 value) } else e)
    else (if (kind == tx_extra_nonce_enc_payment_id) && leb 8 (length value)
        then record e { enc_pid = some (take 8 value) }
        else e)

unfoldable pub read_nonce_field : Extra → Bytes → Result ExtraError Next
read_nonce_field e [] = err nonce_length_missing
read_nonce_field e (l ∷ rest) =
    if ltb (length rest) l
    then err nonce_truncated
    else ok (continue (read_payment_id e (take l rest)) (drop l rest))

-- The first `count` keys.
unfoldable pub keys_of : ℕ → Bytes → List Bytes
keys_of zero rest = []
keys_of (suc count) rest = take 32 rest ∷ keys_of count (drop 32 rest)

unfoldable pub read_additional_keys : Extra → Bytes → Result ExtraError Next
read_additional_keys e [] = err keys_length_missing
read_additional_keys e (l ∷ rest) =
    if ltb (length rest) l
    then err invalid_additional_keys
    else if (l % 32) == 0
    then ok (
        continue (record e { additional_keys = Extra.additional_keys e ++ keys_of (l / 32) rest })
          (drop l rest))
    else err invalid_additional_keys

-- One round, behind the tag.
unfoldable pub read_extra_field : Extra → ℕ → Bytes → Result ExtraError Next
read_extra_field e tag rest =
    if tag == 0x00
    then ok (continue e rest)
    else if tag == tx_extra_tag_pubkey
    then read_pubkey e rest
    else if tag == tx_extra_nonce
    then read_nonce_field e rest
    else if tag == tx_extra_additional_pubkeys
    then read_additional_keys e rest
    else ok (stop e)

-- The loop, with a bound on its rounds.
unfoldable pub parse_extra_loop : ℕ → Extra → Bytes → Result ExtraError Extra
parse_extra_loop fuel e [] = ok e
parse_extra_loop zero e (tag ∷ rest) = out_of_fuel
parse_extra_loop (suc fuel) e (tag ∷ rest) = read_extra_field e tag rest >>= λ next. elim next [
  | stop e' ↦ ok e'
  | continue e' rest' ↦ parse_extra_loop fuel e' rest'
]

abbrev pub no_extra : Extra
no_extra = record { tx_pub_key = none; additional_keys = []; pid = none; enc_pid = none }

-- A round takes a byte at least, so the length is fuel enough.
unfoldable pub parse_tx_extra : Bytes → Result ExtraError Extra
parse_tx_extra extra = parse_extra_loop (length extra) no_extra extra

-- The field that CalcExtra writes for a public key and an encrypted payment id.
unfoldable pub extra_bytes : Bytes → Bytes → Bytes
extra_bytes public_key encrypted_payment_id =
    (0x01 ∷ public_key) ++ 0x02 ∷ 0x09 ∷ 0x01 ∷ encrypted_payment_id
