-- ===== src/Amount.antt =====
-- What is hidden in an output: its view tag, its amount and the mask of its commitment. Sender:
-- DeriveViewTag and EncryptRctAmount of util/keyimage.go, CalcOutPk, CalcCommitment, getH and deriveH
-- of types/tx.go. Receiver: DeriveViewTag, DecodeRctAmount and generateBulletproofPlusMask there.
-- The curve, Keccak256, and an amount in a float64 with XmrToAtomic and AtomicToXmr, which are
-- decimal arithmetic, are parameters.
pub mod Xor
pub mod Receiving
mod Tests
use go_monero.Base.{
  ℕ, zero, suc, ◌+◌, ◌*◌, ◌^◌, ◌==◌, ◌&&◌, Bool, Option, none, some, [], ◌∷◌, ◌++◌, length, bit_or,
  bit_xor, if◌then◌else◌, out_of_range, unsupported, Result, ok, err, panic, ◌>>=◌, ◌>>◌, guard,
}
use go_monero.Base.Bytes.{Bytes, codes, le_bytes, cut_byte}
use go_monero.Varint.{encode_varint}
use go_monero.Curve.{Curve, commitment_base}
use go_monero.Secret.{
  KeyError, wrong_length, bad_point, bad_scalar, or_err, padded, eight_bytes, shared_secret,
}
use go_monero.PaymentId.{xor_bytes}

-- `for i := 0; i < 8; i++ { amount |= uint64(a[i]^m[i]) << (8 * i) }`, from the shift on.
unfoldable pub amount_loop : ℕ → ℕ → ℕ → Bytes → Bytes → Result KeyError ℕ
amount_loop zero shift amount a m = ok amount
amount_loop (suc n) shift amount [] m = panic out_of_range
amount_loop (suc n) shift amount (x ∷ a) [] = panic out_of_range
amount_loop (suc n) shift amount (x ∷ a) (y ∷ m) =
    amount_loop n (shift + 8) (bit_or amount (bit_xor x y * 2 ^ shift)) a m

module _ (c : Curve) (keccak256 : Bytes → Bytes) where
  open c use {Scalar, Point}

  -- A new Scalar that SetUniformBytes has perhaps set.
  unfoldable pub uniform_or_zero : Bytes → Scalar
  uniform_or_zero h = elim (c.set_uniform (padded h)) [ some s ↦ s | none ↦ c.zero ]

  -- The view tag of util/keyimage.go.
  unfoldable pub derive_view_tag : Bytes → ℕ → Result KeyError ℕ
  derive_view_tag derivation index = do
    (view_tag, _) ← cut_byte (keccak256 (codes "view_tag" ++ (derivation ++ encode_varint index)))
    ok view_tag

  -- The view tag of types/tx.go.
  unfoldable pub receiver_view_tag : Bytes → Bytes → ℕ → Result KeyError ℕ
  receiver_view_tag tx_pub_key private_view_key index = do
    guard (length tx_pub_key == 32 && length private_view_key == 32) wrong_length
    shared ← shared_secret c tx_pub_key private_view_key
    (view_tag, _) ← cut_byte (keccak256 (codes "view_tag" ++ (shared ++ encode_varint index)))
    ok view_tag

  -- The scalar of a shared secret and an output, as bytes.
  unfoldable pub hs_bytes : Bytes → ℕ → Result KeyError Bytes
  hs_bytes shared index = do
    hs ← or_err (c.set_uniform (padded (keccak256 (shared ++ encode_varint index)))) bad_scalar
    ok (c.scalar_bytes hs)

  -- Of the amount in atomic units.
  unfoldable pub encrypt_rct_amount : Bytes → ℕ → ℕ → Result KeyError Bytes
  encrypt_rct_amount derivation index amount_atomic = do
    hs ← hs_bytes derivation index
    xor_bytes 8 (le_bytes 8 amount_atomic) (keccak256 (codes "amount" ++ hs))

  unfoldable pub decode_rct_amount : Bytes → Bytes → ℕ → Bytes → Result KeyError ℕ
  decode_rct_amount tx_pub_key private_view_key index encrypted_amount = do
    guard (length encrypted_amount == 8) wrong_length
    r ← or_err (c.set_point tx_pub_key) bad_point
    a ← or_err (c.set_canonical private_view_key) bad_scalar
    eight ← or_err (c.set_canonical eight_bytes) bad_scalar
    let shared = c.point_bytes (c.scalar_mult (c.multiply eight a) r)
    hs ← hs_bytes shared index
    amount_loop 8 0 0 encrypted_amount (keccak256 (codes "amount" ++ hs))

  -- Fallbacks for a constant that is no point.
  unfoldable pub derive_h_loop : ℕ → ℕ → Point
  derive_h_loop zero i = c.generator
  derive_h_loop (suc n) i =
      let next = derive_h_loop n (suc i) in
      elim (c.set_point (keccak256 (c.point_bytes c.generator ++ i ∷ []))) [
        | some h ↦ h
        | none ↦ next
      ]

  unfoldable pub derive_h : Point
  derive_h = elim (c.set_point (keccak256 (c.point_bytes c.generator))) [
    | some h ↦ h
    | none ↦ derive_h_loop 256 0
  ]

  unfoldable pub get_h : Point
  get_h = elim (c.set_point commitment_base) [ some h ↦ h | none ↦ derive_h ]

  unfoldable pub calc_commitment : ℕ → Bytes → Result KeyError Bytes
  calc_commitment amount mask = do
    blinding_factor ← or_err (c.set_canonical mask) bad_scalar
    amount_scalar ← or_err (c.set_canonical (le_bytes 8 amount ++ le_bytes 24 0)) bad_scalar
    let x_g = c.scalar_base_mult blinding_factor
    let a_h = c.scalar_mult amount_scalar get_h
    ok (c.point_bytes (c.point_add x_g a_h))

  -- The blinding factor and the commitment.
  unfoldable pub calc_out_pk : Bytes → ℕ → ℕ → Result KeyError (Scalar × Bytes)
  calc_out_pk derivation index amount_atomic = do
    hs ← hs_bytes derivation index
    blinding_factor ←
        or_err (c.set_uniform (padded (keccak256 (codes "commitment_mask" ++ hs)))) bad_scalar
    commitment ← calc_commitment amount_atomic (c.scalar_bytes blinding_factor)
    ok (blinding_factor, commitment)

  unfoldable pub generate_bulletproof_plus_mask : Bytes → Bytes → ℕ → Result KeyError Bytes
  generate_bulletproof_plus_mask tx_pub_key private_view_key index = do
    shared ← shared_secret c tx_pub_key private_view_key
    let derivation = uniform_or_zero (keccak256 (shared ++ encode_varint index))
    let mask = uniform_or_zero (keccak256 (codes "commitment_mask" ++ c.scalar_bytes derivation))
    ok (c.scalar_bytes mask)
