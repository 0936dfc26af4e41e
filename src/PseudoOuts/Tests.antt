-- ===== src/PseudoOuts/Tests.antt =====
-- Two inputs, two outputs and a fee, over the group of residues.
use go_monero.Base.{◌≡◌, refl, some, List, [], ◌∷◌, ok, arith}
use go_monero.Base.Bytes.{Bytes}
use go_monero.Curve.{Curve, IsCurve}
use go_monero.Curve.Residue.{residues, residues-IsCurve}
use go_monero.Samples.{secret, secret_bytes, checksum_hash, checksum_hash-IsHash, secret_canonical}
use go_monero.Amount.{get_h}
use go_monero.PseudoOuts.{calculate_pseudo_outs}
use go_monero.PseudoOuts.Sums.{total, commitments}
use go_monero.PseudoOuts.Balance.{calculate_pseudo_outs-balance}

calculate_pseudo_outs-balance_example :
    (outs : List Bytes) × (masks : List (Curve.Scalar residues)) × (p : Curve.Point residues)
    × (q : Curve.Point residues) × (calculate_pseudo_outs residues checksum_hash secret_bytes 2
          (30 ∷ 12 ∷ [])
          (secret 3 ∷ secret 4 ∷ [])
        ≡ ok (outs, masks))
    × (total residues residues-IsCurve outs ≡ some p)
    × (total residues residues-IsCurve (
          commitments residues residues-IsCurve checksum_hash checksum_hash-IsHash
            (secret 3 ∷ secret 4 ∷ [])
            (20 ∷ 15 ∷ []))
        ≡ some q)
    × (p
        ≡ Curve.point_add residues q (
            Curve.scalar_mult residues
              (IsCurve.of_nat residues-IsCurve 7)
              (get_h residues checksum_hash)))
calculate_pseudo_outs-balance_example =
    calculate_pseudo_outs-balance residues residues-IsCurve checksum_hash checksum_hash-IsHash
      secret_bytes secret_canonical (30 ∷ []) 12 (secret 3 ∷ secret 4 ∷ []) (20 ∷ 15 ∷ []) 7
      (omega arith) (omega arith) refl refl
