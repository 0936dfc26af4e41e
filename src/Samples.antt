-- ===== src/Samples.antt =====
-- Data for the tests: secrets in the group of residues, and a hash function that adds bytes up.
use go_monero.Base.{ℕ, suc, ◌+◌, ◌≡◌, [], ◌∷◌, ap}
use go_monero.Base.Bytes.{Bytes, le_bytes, length-le_bytes, le_bytes-IsBytes}
use go_monero.Curve.{Curve}
use go_monero.Curve.Residue.{element, residues, residues-IsCurve, of_bytes-bytes_of}
use go_monero.Address.Format.{IsHash}
use go_monero.Secret.{canonical_or_zero}
use go_monero.Secret.Agreement.{base_bytes}

unfoldable pub secret : ℕ → Curve.Scalar residues
unfolding residues
secret n = element n

abbrev pub secret_bytes : ℕ → Bytes
secret_bytes n = Curve.scalar_bytes residues (secret n)

abbrev pub public_bytes : ℕ → Bytes
public_bytes n = base_bytes residues residues-IsCurve (secret n)

unfoldable pub checksum : Bytes → ℕ
checksum [] = 1
checksum (b ∷ bs) = suc (b + checksum bs)

unfoldable pub checksum_hash : Bytes → Bytes
checksum_hash b = le_bytes 32 (checksum b)

pub checksum_hash-IsHash : IsHash checksum_hash
unfolding checksum_hash
checksum_hash-IsHash b = record {
  bytes = le_bytes-IsBytes 32 (checksum b);
  length_32 = length-le_bytes 32 (checksum b);
}

pub secret_canonical :
    (n : ℕ)
    → Curve.scalar_bytes residues (canonical_or_zero residues (secret_bytes n)) ≡ secret_bytes n
unfolding residues secret canonical_or_zero
secret_canonical n = ap (λ e. le_bytes 32 e.0) (of_bytes-bytes_of (element n))
