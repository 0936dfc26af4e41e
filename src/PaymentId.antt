-- ===== src/PaymentId.antt =====
-- Payment ids in util/crypto.go: EncryptPaymentID and DecryptShortPaymentID.
pub mod RoundTrip
mod Tests
use go_monero.Base.{
  ℕ, zero, suc, ◌==◌, ◌&&◌, Bool, Option, none, some, [], ◌∷◌, ◌++◌, length, bit_xor, if◌then◌else◌,
  Panic, out_of_range, Result, ok, err, panic, ◌>>=◌, ◌>>◌, guard,
}
use go_monero.Base.Bytes.{Bytes, le_value}
use go_monero.Curve.{Curve}
use go_monero.Secret.{
  KeyError, wrong_length, bad_point, bad_scalar, or_err, shared_secret, scalar_from_uint64,
}

-- `for i := 0; i < n; i++ { out[i] = a[i] ^ b[i] }`
unfoldable pub xor_bytes : ℕ → Bytes → Bytes → Result KeyError Bytes
xor_bytes zero a b = ok []
xor_bytes (suc n) [] b = panic out_of_range
xor_bytes (suc n) (x ∷ a) [] = panic out_of_range
xor_bytes (suc n) (x ∷ a) (y ∷ b) = do rest ← xor_bytes n a b; ok (bit_xor x y ∷ rest)

module _ (c : Curve) where
  open c use {Scalar}

  -- The private view key as a scalar, clamped where it is not canonical.
  unfoldable pub view_scalar : Bytes → Result KeyError Scalar
  view_scalar b = elim (c.set_canonical b) [
    | some s ↦ ok s
    | none ↦ or_err (c.set_clamped b) bad_scalar
  ]

module _ (c : Curve) (keccak256 : Bytes → Bytes) where
  -- The number and the 8 bytes that it is.
  unfoldable pub decrypt_short_payment_id : Bytes → Bytes → Bytes → Result KeyError (ℕ × Bytes)
  decrypt_short_payment_id tx_pub_key priv_view_key enc_pid = do
    guard (length tx_pub_key == 32) wrong_length
    guard (length priv_view_key == 32) wrong_length
    guard (length enc_pid == 8) wrong_length
    r ← or_err (c.set_point tx_pub_key) bad_point
    scalar ← view_scalar c priv_view_key
    eight ← scalar_from_uint64 c 8
    let shared_bytes = c.point_bytes (c.scalar_mult eight (c.scalar_mult scalar r))
    pid_bytes ← xor_bytes 8 enc_pid (keccak256 (shared_bytes ++ 0x8d ∷ []))
    ok (le_value pid_bytes, pid_bytes)

  unfoldable pub encrypt_payment_id : Bytes → Bytes → Bytes → Result KeyError Bytes
  encrypt_payment_id payment_id pub_view_key tx_secret_key = do
    shared ← shared_secret c pub_view_key tx_secret_key
    xor_bytes 8 payment_id (keccak256 (shared ++ 0x8d ∷ []))
