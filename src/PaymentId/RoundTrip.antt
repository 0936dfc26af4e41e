-- ===== src/PaymentId/RoundTrip.antt =====
-- The receiver of a payment decrypts the id that the sender encrypted.
use go_monero.Base.{
  ℕ, zero, suc, ◌≤◌, ◌≡◌, refl, ap, [], ◌∷◌, ◌++◌, length, bit_xor, arith, true, ◌==◌, ok,
}
use go_monero.Base.Bits.{bit_xor_twice}
use go_monero.Base.Bytes.{Bytes, le_value}
use go_monero.Curve.{Curve, IsCurve}
use go_monero.Secret.{scalar_from_uint64}
use go_monero.Secret.Agreement.{base_bytes, shared, shared_comm, shared_secret-base}
use go_monero.PaymentId.{xor_bytes, view_scalar, decrypt_short_payment_id, encrypt_payment_id}
use go_monero.Address.Format.{IsHash}

-- Bytes that are there give as many, and the same mask takes them back.
pub xor_bytes_twice :
    (n : ℕ) (a m : Bytes)
    → length a ≡ n
    → n ≤ length m
    → (x : Bytes) × (xor_bytes n a m ≡ ok x) × (length x ≡ n) × (xor_bytes n x m ≡ ok a)
unfolding xor_bytes
xor_bytes_twice zero [] m h k = ([], refl, refl, refl)
xor_bytes_twice zero (y ∷ a) m h k = absurd (omega arith)
xor_bytes_twice (suc n) [] m h k = absurd (omega arith)
xor_bytes_twice (suc n) (y ∷ a) [] h k = absurd (omega arith)
xor_bytes_twice (suc n) (y ∷ a) (z ∷ m) h k =
    let (x, e, l, back) = xor_bytes_twice n a m (omega arith) (omega arith) in
    (
      bit_xor y z ∷ x,
      rw (xor_bytes, e),
      omega arith,
      rw (xor_bytes, back) (ap (λ (b : ℕ). ok (b ∷ a)) (bit_xor_twice y z)),
    )

pub is_n : (n : ℕ) (a : Bytes) → length a ≡ n → (length a == n) ≡ true
is_n n a h = ground arith

module _ (c : Curve) (w : IsCurve c) where
  open c use {Scalar}

  view_scalar-bytes : (s : Scalar) → view_scalar c (c.scalar_bytes s) ≡ ok s
  unfolding view_scalar
  view_scalar-bytes s = rw (view_scalar, w.canonical s)

  scalar_from_uint64-eight : scalar_from_uint64 c 8 ≡ ok (w.of_nat 8)
  unfolding scalar_from_uint64
  scalar_from_uint64-eight = rw (scalar_from_uint64, w.reduced 8)

  -- EncryptPaymentID with the public view key and the transaction's secret succeeds for an id of 8
  -- bytes, and DecryptShortPaymentID with the transaction's public key and the view secret returns
  -- the id, as a little-endian number and as bytes.
  pub decrypt_short_payment_id-encrypt_payment_id :
      (keccak256 : Bytes → Bytes)
      → IsHash keccak256
      → (r v : Scalar) (payment_id : Bytes) → length payment_id ≡ 8
      → (enc_pid : Bytes) × (encrypt_payment_id c keccak256 payment_id
            (base_bytes c w v)
            (c.scalar_bytes r)
          ≡ ok enc_pid)
        × (decrypt_short_payment_id c keccak256 (base_bytes c w r) (c.scalar_bytes v) enc_pid
            ≡ ok (le_value payment_id, payment_id))
  unfolding encrypt_payment_id decrypt_short_payment_id
  decrypt_short_payment_id-encrypt_payment_id keccak256 hash r v payment_id h =
      let mask = keccak256 (shared c w v r ++ 0x8d ∷ []) in
      let (x, e, l, back) =
        xor_bytes_twice 8 payment_id mask h
          (omega (arith, (hash (shared c w v r ++ 0x8d ∷ [])).length_32)) in
      (
        x,
        rw (shared_secret-base c w v r, shared_comm c w r v) e,
        rw (
          is_n 32 (base_bytes c w r) (w.point_32 (c.scalar_base_mult r)),
          is_n 32 (c.scalar_bytes v) (w.scalar_32 v),
          is_n 8 x l,
          w.decodable (c.scalar_base_mult r),
          view_scalar-bytes v,
          scalar_from_uint64-eight,
          w.mult-base v r,
          w.mult-base (w.of_nat 8) (c.multiply v r),
          back,
        ),
      )
