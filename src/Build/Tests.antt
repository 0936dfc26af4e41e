-- ===== src/Build/Tests.antt =====
-- Two payments to an integrated address over the group of residues.
use go_monero.Base.{ℕ, ◌+◌, ◌≡◌, refl, [], ◌∷◌, ok, arith}
use go_monero.Base.Bytes.{Bytes, IsBytes, le_value, length-le_bytes, le_bytes-IsBytes}
use go_monero.Base.Hex.{hex_encode}
use go_monero.Curve.Residue.{residues, residues-IsCurve}
use go_monero.Samples.{secret, secret_bytes, public_bytes, checksum_hash, checksum_hash-IsHash}
use go_monero.Address.Format.{Kind, IsKey, IsAddress, address_text}
use go_monero.Scan.{check_outputs}
use go_monero.Scan.Outputs.{sum_own}
use go_monero.Build.{Building, calc_extra, calc_outputs}
use go_monero.Build.Written.{payee}
use go_monero.Build.Received.{fresh, check_outputs-calc_outputs}

abbrev payment_id : Bytes
payment_id = 1 ∷ 2 ∷ 3 ∷ 4 ∷ 5 ∷ 6 ∷ 7 ∷ 8 ∷ []

abbrev integrated : Kind
integrated = Kind.integrated payment_id

public-IsKey : (n : ℕ) → IsKey (public_bytes n)
unfolding residues secret
public-IsKey n = record { bytes = le_bytes-IsBytes 32 _; length_32 = length-le_bytes 32 _ }

secret-IsBytes : (n : ℕ) → IsBytes (secret_bytes n)
unfolding residues secret
secret-IsBytes n = le_bytes-IsBytes 32 _

payee-IsAddress : IsAddress (
    payee residues residues-IsCurve checksum_hash checksum_hash-IsHash
      (secret 3)
      (secret 5)
      (secret 7)
      integrated)
payee-IsAddress = record {
  is_kind = (omega arith, refl);
  is_spend = public-IsKey 7;
  is_view = public-IsKey 5;
}

check_outputs-calc_outputs_example :
    (t1 : Building residues) × (t2 : Building residues) × (calc_extra residues checksum_hash (
        fresh residues residues-IsCurve checksum_hash checksum_hash-IsHash
          (secret 3)
          (secret 5)
          (secret 7)
          integrated
          (1000000 ∷ 250 ∷ []))
      ≡ ok t1)
    × (calc_outputs residues checksum_hash t1 ≡ ok t2)
    × (check_outputs residues checksum_hash 0 ◌+◌
          (λ (n : ℕ). n)
          (Building.tx t2)
          (address_text checksum_hash
            (record { kind = integrated; spend = public_bytes 7; view = public_bytes 5 }))
          (hex_encode (secret_bytes 5))
        ≡ ok (1000250, le_value payment_id))
unfolding sum_own
check_outputs-calc_outputs_example =
    check_outputs-calc_outputs residues residues-IsCurve checksum_hash checksum_hash-IsHash
      (secret 3) (secret 5) (secret 7) integrated 0 ◌+◌ (λ (n : ℕ). n) 1000000 (250 ∷ [])
      payee-IsAddress refl (secret-IsBytes 5) (omega arith) (omega arith)
