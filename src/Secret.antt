-- ===== src/Secret.antt =====
-- The secrets that sender and receiver share, and the keys that are derived from them: SharedSecret,
-- DerivePublicKeyMy, sc_reduce32 and ScalarFromUint64 of util/crypto.go, and util/keyimage.go up to
-- the key image. The curve and the hash function Keccak256 are parameters.
pub mod Agreement
pub mod Keys
mod Tests
use go_monero.Base.{
  ℕ, ◌+◌, ◌%◌, ◌==◌, ◌&&◌, Bool, Option, none, some, [], ◌∷◌, ◌++◌, length, if◌then◌else◌, Panic,
  unsupported, Result, ok, err, panic, ◌>>=◌, ◌>>◌, guard,
}
use go_monero.Base.Bytes.{Bytes, le_bytes, le_value, bytes_eq}
use go_monero.Varint.{encode_varint, uint64_to_bytes}
use go_monero.Curve.{Curve, group_order}

pub data KeyError : Type 0 where
  wrong_length bad_point bad_scalar : KeyError
  derivation_failed public_key_failed keys_differ : KeyError

-- A value, or this error.
abbrev pub or_err {ℓ κ} : {E : Type ℓ} {A : Type κ} → Option A → E → Result E A
or_err none e = err e
or_err (some a) e = ok a

-- sc_reduce32: the number modulo the group order, in 32 bytes.
unfoldable pub reduce32 : Bytes → Bytes
reduce32 b = le_bytes 32 (le_value b % group_order)

-- `make([]byte, 32)` with the first byte 8.
abbrev pub eight_bytes : Bytes
eight_bytes = le_bytes 32 8

-- The bytes of a hash in front of 32 zeros.
abbrev pub padded : Bytes → Bytes
padded h = h ++ le_bytes 32 0

module _ (c : Curve) where
  open c use {Scalar, Point}

  -- SetCanonicalBytes, and SetUniformBytes of the bytes twice where that fails.
  unfoldable pub canonical_or_uniform : Bytes → Scalar
  canonical_or_uniform b = elim (c.set_canonical b) [
    | some s ↦ s
    | none ↦ elim (c.set_uniform (b ++ b)) [ some s ↦ s | none ↦ c.zero ]
  ]

  -- A new Scalar that SetCanonicalBytes has perhaps set.
  unfoldable pub canonical_or_zero : Bytes → Scalar
  canonical_or_zero b = elim (c.set_canonical b) [ some s ↦ s | none ↦ c.zero ]

  -- ScalarFromUint64 panics with an error of the library.
  unfoldable pub scalar_from_uint64 : ℕ → Result KeyError Scalar
  scalar_from_uint64 v = elim (c.set_canonical (le_bytes 32 v)) [
    | some s ↦ ok s
    | none ↦ panic unsupported
  ]

  unfoldable pub shared_secret : Bytes → Bytes → Result KeyError Bytes
  shared_secret tx_pub_key private_view_key = do
    guard (length tx_pub_key == 32 && length private_view_key == 32) wrong_length
    r ← or_err (c.set_point tx_pub_key) bad_point
    let a = canonical_or_uniform private_view_key
    let eight_a = c.multiply (canonical_or_uniform eight_bytes) a
    ok (c.point_bytes (c.scalar_mult eight_a r))

  -- GenerateKeyDerivation; `none` is `ok == false`.
  unfoldable pub generate_key_derivation : Bytes → Bytes → Option Bytes
  generate_key_derivation pub_key sec_key = elim (c.ge_from_bytes pub_key) [
    | none ↦ none
    | some point ↦ some (c.ge_to_bytes (c.ge_mul8 (c.ge_scalar_mult sec_key point)))
  ]

  -- The key of `p.PubKey()`.
  unfoldable pub pub_key : Bytes → Bytes
  pub_key k = c.ge_to_bytes (c.ge_scalar_mult_base k)

module _ (c : Curve) (keccak256 : Bytes → Bytes) where
  open c use {Scalar, Point}

  unfoldable pub derivation_to_scalar : Bytes → ℕ → Bytes
  derivation_to_scalar derivation out_index =
      c.sc_reduce32 (keccak256 (derivation ++ uint64_to_bytes out_index))

  unfoldable pub derive_public_key : Bytes → ℕ → Bytes → Option Bytes
  derive_public_key derivation out_index base = elim (c.ge_from_bytes base) [
    | none ↦ none
    | some point1 ↦ some (
        c.ge_to_bytes
          (c.ge_add point1 (c.ge_scalar_mult_base (derivation_to_scalar derivation out_index))))
  ]

  unfoldable pub derive_secret_key : Bytes → ℕ → Bytes → Bytes
  derive_secret_key derivation out_index base =
      c.sc_add base (derivation_to_scalar derivation out_index)

  unfoldable pub derive_public_key_my : Bytes → Bytes → Bytes → ℕ → Result KeyError Bytes
  derive_public_key_my tx_pub_key private_view_key pub_spend_key index = do
    guard (length tx_pub_key == 32) wrong_length
    guard (length private_view_key == 32) wrong_length
    guard (length pub_spend_key == 32) wrong_length
    r ← or_err (c.set_point tx_pub_key) bad_point
    a ← or_err (c.set_canonical private_view_key) bad_scalar
    let derivation = c.scalar_mult (canonical_or_zero c eight_bytes) (c.scalar_mult a r)
    let scalar = reduce32 (keccak256 (c.point_bytes derivation ++ encode_varint index))
    let hs_g = c.scalar_base_mult (canonical_or_uniform c scalar)
    b ← or_err (c.set_point pub_spend_key) bad_point
    ok (c.point_bytes (c.point_add hs_g b))

  -- The point of `p.HashToEC()`.
  unfoldable pub hash_to_ec : Bytes → Point
  hash_to_ec k = c.ge_mul8 (c.ge_from_hash (keccak256 k))

  unfoldable pub generate_key_image : Bytes → Bytes
  generate_key_image priv_key =
      c.ge_to_bytes (c.ge_scalar_mult priv_key (hash_to_ec (pub_key c priv_key)))

  -- CreateKeyImage: the key image and the secret key of the output.
  unfoldable pub create_key_image :
      Bytes → Bytes → Bytes → Bytes → ℕ → Result KeyError (Bytes × Bytes)
  create_key_image pub_spend_key sec_spend_key sec_view_key tx_pub_key out_index = do
    derivation ← or_err (generate_key_derivation c tx_pub_key sec_view_key) derivation_failed
    derived_pub_key ←
        or_err (derive_public_key derivation out_index pub_spend_key) public_key_failed
    let derived_pri_key = derive_secret_key derivation out_index sec_spend_key
    guard (bytes_eq (pub_key c derived_pri_key) derived_pub_key) keys_differ
    ok (generate_key_image derived_pri_key, derived_pri_key)
