-- ===== src/Scan/Tests.antt =====
-- A transaction of two outputs over the group of residues, of which the first is the receiver's.
use go_monero.Base.{
  ℕ, ◌+◌, ◌-◌, ◌^◌, ◌≡◌, refl, ap, some, none, [], ◌∷◌, ok, false, arith, Bool-cases, inl, inr,
}
use go_monero.Base.Bytes.{
  Bytes, IsBytes, le_bytes, le_value, length-le_bytes, le_bytes-IsBytes, le_value-le_bytes,
}
use go_monero.Base.Hex.{hex_encode}
use go_monero.Curve.{Curve}
use go_monero.Curve.Residue.{residues, residues-IsCurve}
use go_monero.Samples.{secret, secret_bytes, public_bytes, checksum_hash, checksum_hash-IsHash}
use go_monero.Secret.Agreement.{base_bytes, shared, output_scalar, derive_public_key-base}
use go_monero.Address.{equal_bytes}
use go_monero.Address.Format.{Kind, IsKey, address_text}
use go_monero.Address.Sound.{equal_bytes→eq}
use go_monero.Amount.Receiving.{received}
use go_monero.PaymentId.RoundTrip.{decrypt_short_payment_id-encrypt_payment_id}
use go_monero.Extra.{extra_bytes}
use go_monero.Tx.{RctSignature, Transaction}
use go_monero.Scan.{echd_at, check_outputs}
use go_monero.Scan.Outputs.{derive_view_tag_known, sum_own}
use go_monero.Scan.Made.{check_outputs-made}

-- The secrets of the transaction, 3, of the view key, 5, and of the spend key, 7.
abbrev agreed : Bytes
agreed = shared residues residues-IsCurve (secret 5) (secret 3)

abbrev key_of : ℕ → Bytes
key_of i =
    base_bytes residues residues-IsCurve (
      Curve.add residues (secret 7)
        (output_scalar residues residues-IsCurve checksum_hash agreed i))

abbrev encrypted : Bytes
encrypted =
    (received residues residues-IsCurve checksum_hash checksum_hash-IsHash (secret 3) (secret 5) 0
      1000000 (omega arith)).0

abbrev view_tag : ℕ
view_tag =
    (derive_view_tag_known residues residues-IsCurve checksum_hash checksum_hash-IsHash agreed 0).0

-- 32 bytes that are no element of the group.
abbrev foreign_key : Bytes
foreign_key = le_bytes 32 (256 ^ 32 - 1)

is_foreign :
    (e : Curve.Point residues) → equal_bytes (Curve.point_bytes residues e) foreign_key ≡ false
unfolding residues
is_foreign e = elim (Bool-cases (equal_bytes (le_bytes 32 e.0) foreign_key)) [
  | inr h ↦ h
  | inl h ↦ absurd (
      omega (
        arith,
        ap le_value (equal_bytes→eq (le_bytes 32 e.0) foreign_key h),
        le_value-le_bytes 32 e.0 (omega (arith, e.1)),
        le_value-le_bytes 32 (256 ^ 32 - 1) (omega arith),
        e.1,
      ))
]

abbrev payment_id : Bytes
payment_id = 1 ∷ 2 ∷ 3 ∷ 4 ∷ 5 ∷ 6 ∷ 7 ∷ 8 ∷ []

abbrev encrypted_id : Bytes
encrypted_id =
    (decrypt_short_payment_id-encrypt_payment_id residues residues-IsCurve checksum_hash
      checksum_hash-IsHash (secret 3) (secret 5) payment_id refl).0

abbrev sig : RctSignature
sig = record {
  rct_type = 6;
  txn_fee = 30000;
  ecdh_info =
      record { mask = []; amount = encrypted }
      ∷ record { mask = []; amount = 8 ∷ 7 ∷ 6 ∷ 5 ∷ 4 ∷ 3 ∷ 2 ∷ 1 ∷ [] }
      ∷ [];
  out_pk = [];
}

abbrev sent : Transaction
sent = record {
  raw = [];
  version = 2;
  unlock_time = 0;
  vin_count = 0;
  inputs = [];
  vout_count = 2;
  outputs =
      record { amount = 0; target = key_of 0; output_type = 3; view_tag = view_tag }
      ∷ record { amount = 0; target = foreign_key; output_type = 3; view_tag = 0x5a }
      ∷ [];
  extra = extra_bytes (public_bytes 3) encrypted_id;
  rct_raw = [];
  rct_signature = some sig;
  rct_sig_prunable = none;
}

public-IsKey : (n : ℕ) → IsKey (public_bytes n)
unfolding residues secret
public-IsKey n = record { bytes = le_bytes-IsBytes 32 _; length_32 = length-le_bytes 32 _ }

secret-IsBytes : (n : ℕ) → IsBytes (secret_bytes n)
unfolding residues secret
secret-IsBytes n = le_bytes-IsBytes 32 _

check_outputs-made_example :
    check_outputs residues checksum_hash 0 ◌+◌
      (λ (n : ℕ). n)
      sent
      (address_text checksum_hash
        (record { kind = Kind.standard; spend = public_bytes 7; view = public_bytes 5 }))
      (hex_encode (secret_bytes 5))
    ≡ ok (1000000, le_value payment_id)
unfolding sum_own echd_at
check_outputs-made_example =
    check_outputs-made residues residues-IsCurve checksum_hash checksum_hash-IsHash 0 ◌+◌
      (λ (n : ℕ). n) (secret 3) (secret 5) (secret 7) sig Kind.standard payment_id encrypted_id sent
      (some 1000000 ∷ none ∷ []) (omega arith) (secret-IsBytes 5)
      (record { is_kind = tt; is_spend = public-IsKey 7; is_view = public-IsKey 5 }) refl
      (decrypt_short_payment_id-encrypt_payment_id residues residues-IsCurve checksum_hash
        checksum_hash-IsHash (secret 3) (secret 5) payment_id refl).1
      refl refl
      (
        (
          record { mask = []; amount = encrypted },
          refl,
          omega arith,
          (received residues residues-IsCurve checksum_hash checksum_hash-IsHash (secret 3)
              (secret 5) 0 1000000 (omega arith)).3,
          (derive_view_tag_known residues residues-IsCurve checksum_hash checksum_hash-IsHash agreed
              0).1,
          derive_public_key-base residues residues-IsCurve checksum_hash agreed 0 (secret 7),
        ),
        (
          (
            key_of 1,
            derive_public_key-base residues residues-IsCurve checksum_hash agreed 1 (secret 7),
            is_foreign _,
          ),
          tt,
        ),
      )
