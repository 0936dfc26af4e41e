-- ===== src/Amount/Tests.antt =====
-- An output's hidden values, over the group of residues.
use go_monero.Base.{◌≡◌, ok, arith}
use go_monero.Base.Bytes.{Bytes}
use go_monero.Curve.{Curve}
use go_monero.Curve.Residue.{residues, residues-IsCurve}
use go_monero.Samples.{secret, secret_bytes, public_bytes, checksum_hash, checksum_hash-IsHash}
use go_monero.Secret.Agreement.{shared}
use go_monero.Amount.{
  derive_view_tag, receiver_view_tag, encrypt_rct_amount, decode_rct_amount, calc_commitment,
  calc_out_pk, generate_bulletproof_plus_mask,
}
use go_monero.Amount.Receiving.{received}

abbrev agreed : Bytes
agreed = shared residues residues-IsCurve (secret 7) (secret 5)

received_example :
    (enc : Bytes) × (x : Curve.Scalar residues) × (out_pk : Bytes) × (encrypt_rct_amount residues
        checksum_hash agreed 2 1000000
      ≡ ok enc)
    × (calc_out_pk residues checksum_hash agreed 2 1000000 ≡ ok (x, out_pk))
    × (receiver_view_tag residues checksum_hash (public_bytes 5) (secret_bytes 7) 2
        ≡ derive_view_tag residues checksum_hash agreed 2)
    × (decode_rct_amount residues checksum_hash (public_bytes 5) (secret_bytes 7) 2 enc
        ≡ ok 1000000)
    × (generate_bulletproof_plus_mask residues checksum_hash (public_bytes 5) (secret_bytes 7) 2
        ≡ ok (Curve.scalar_bytes residues x))
    × (calc_commitment residues checksum_hash 1000000 (Curve.scalar_bytes residues x) ≡ ok out_pk)
received_example =
    received residues residues-IsCurve checksum_hash checksum_hash-IsHash (secret 5) (secret 7) 2
      1000000 (omega arith)
