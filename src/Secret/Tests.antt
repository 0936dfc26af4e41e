-- ===== src/Secret/Tests.antt =====
-- The keys of an output over the group of residues.
use go_monero.Base.{◌≡◌, some, ok}
use go_monero.Base.Bytes.{Bytes}
use go_monero.Curve.{Curve}
use go_monero.Curve.Residue.{residues, residues-IsCurve}
use go_monero.Samples.{secret, secret_bytes, public_bytes, checksum_hash}
use go_monero.Secret.{
  generate_key_derivation, derive_public_key, derive_public_key_my, hash_to_ec, create_key_image,
}
use go_monero.Secret.Agreement.{base_bytes}
use go_monero.Secret.Keys.{create_key_image-derive_public_key}

create_key_image-derive_public_key_example :
    (derivation : Bytes) × (key : Bytes) × (x : Curve.Scalar residues) × (generate_key_derivation
        residues
        (public_bytes 7)
        (secret_bytes 5)
      ≡ some derivation)
    × (derive_public_key residues checksum_hash derivation 3 (public_bytes 11) ≡ some key)
    × (derive_public_key_my residues checksum_hash
          (public_bytes 5)
          (secret_bytes 7)
          (public_bytes 11)
          3
        ≡ ok key)
    × (base_bytes residues residues-IsCurve x ≡ key)
    × (create_key_image residues checksum_hash
          (public_bytes 11)
          (secret_bytes 11)
          (secret_bytes 7)
          (public_bytes 5)
          3
        ≡ ok (
          Curve.point_bytes residues
              (Curve.scalar_mult residues x (hash_to_ec residues checksum_hash key)),
          Curve.scalar_bytes residues x,
        ))
create_key_image-derive_public_key_example =
    create_key_image-derive_public_key residues residues-IsCurve checksum_hash (secret 5) (secret 7)
      (secret 11) 3
