-- ===== src/PseudoOuts.antt =====
-- calculatePseudoOuts of types/bpp.go and CalcScalars of types/tx.go. `random i` is what the i-th
-- call of RandomScalar returns; the amounts of the inputs are in atomic units.
pub mod Sums
pub mod Balance
mod Tests
use go_monero.Base.{
  ℕ, zero, suc, ◌+◌, List, [], ◌∷◌, ◌++◌, out_of_range, Result, ok, err, panic, ◌>>=◌,
}
use go_monero.Base.Bytes.{Bytes}
use go_monero.Curve.{Curve}
use go_monero.Secret.{KeyError, canonical_or_zero}
use go_monero.Amount.{calc_commitment}

pub data PseudoError : Type 0 where
  no_inputs : PseudoError
  no_commitment : KeyError → PseudoError

-- The error of a commitment is wrapped.
abbrev pub wrapped {ℓ} : {A : Type ℓ} → Result KeyError A → Result PseudoError A
wrapped (ok a) = ok a
wrapped (err e) = err (PseudoError.no_commitment e)
wrapped (panic p) = panic p
wrapped Result.out_of_fuel = Result.out_of_fuel

-- `t.PInputs[i]["amount"]`
abbrev pub first_amount : List ℕ → Result PseudoError (ℕ × List ℕ)
first_amount [] = panic out_of_range
first_amount (a ∷ amounts) = ok (a, amounts)

module _ (c : Curve) where
  open c use {Scalar}

  -- The pseudo outputs and masks of all inputs but the last, the sum of the masks, and the amounts
  -- that are left.
  pub record Masked : Type 0 where
    pub outs : List Bytes
    pub masks : List Scalar
    pub sum : Scalar
    pub left : List ℕ

  unfoldable pub calc_scalars : Scalar → List Scalar → Scalar
  calc_scalars sum [] = sum
  calc_scalars sum (s ∷ scalars) = calc_scalars (c.add sum s) scalars

module _ (c : Curve) (keccak256 : Bytes → Bytes) (random : ℕ → Bytes) where
  open c use {Scalar}

  unfoldable pub mask_loop : ℕ → ℕ → Scalar → List ℕ → Result PseudoError (Masked c)
  mask_loop zero i sum amounts = ok (record { outs = []; masks = []; sum = sum; left = amounts })
  mask_loop (suc n) i sum amounts = do
    let mask = canonical_or_zero c (random i)
    (amount, amounts') ← first_amount amounts
    out ← wrapped (calc_commitment c keccak256 amount (random i))
    m ← mask_loop n (suc i) (c.add sum mask) amounts'
    ok (record m { outs = out ∷ Masked.outs m; masks = mask ∷ Masked.masks m })

  -- For the number of inputs, their amounts and the blinding factors of the outputs.
  unfoldable pub calculate_pseudo_outs :
      ℕ → List ℕ → List Scalar → Result PseudoError (List Bytes × List Scalar)
  calculate_pseudo_outs zero amounts blind_scalars = err no_inputs
  calculate_pseudo_outs (suc n) amounts blind_scalars = do
    m ← mask_loop n 0 c.zero amounts
    (amount, _) ← first_amount (Masked.left m)
    let mask = c.subtract (calc_scalars c c.zero blind_scalars) (Masked.sum m)
    out ← wrapped (calc_commitment c keccak256 amount (c.scalar_bytes mask))
    ok (Masked.outs m ++ out ∷ [], Masked.masks m ++ mask ∷ [])
