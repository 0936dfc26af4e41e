-- ===== src/PaymentId/Tests.antt =====
-- A payment id, over the group of residues.
use go_monero.Base.{◌≡◌, refl, [], ◌∷◌, ok}
use go_monero.Base.Bytes.{Bytes, le_value}
use go_monero.Curve.Residue.{residues, residues-IsCurve}
use go_monero.Samples.{secret, secret_bytes, public_bytes, checksum_hash, checksum_hash-IsHash}
use go_monero.PaymentId.{encrypt_payment_id, decrypt_short_payment_id}
use go_monero.PaymentId.RoundTrip.{decrypt_short_payment_id-encrypt_payment_id}

abbrev id : Bytes
id = 1 ∷ 2 ∷ 3 ∷ 4 ∷ 5 ∷ 6 ∷ 7 ∷ 8 ∷ []

decrypt_short_payment_id-encrypt_payment_id_example :
    (enc_pid : Bytes) × (encrypt_payment_id residues checksum_hash id
        (public_bytes 7)
        (secret_bytes 5)
      ≡ ok enc_pid)
    × (decrypt_short_payment_id residues checksum_hash (public_bytes 5) (secret_bytes 7) enc_pid
        ≡ ok (le_value id, id))
decrypt_short_payment_id-encrypt_payment_id_example =
    decrypt_short_payment_id-encrypt_payment_id residues residues-IsCurve checksum_hash
      checksum_hash-IsHash (secret 5) (secret 7) id refl
