-- ===== src/PseudoOuts/Balance.antt =====
-- The pseudo outputs balance the outputs and the fee.
use go_monero.Base.{
  ℕ, zero, suc, ◌+◌, ◌^◌, ◌<◌, ◌≡◌, refl, ap, sym, ◌∙◌, some, List, [], ◌∷◌, ◌++◌, length, All,
  arith, ok,
}
use go_monero.Base.Bytes.{Bytes}
use go_monero.Curve.{Curve, IsCurve}
use go_monero.Address.Format.{IsHash}
use go_monero.Secret.{canonical_or_zero}
use go_monero.Amount.{get_h, calc_commitment}
use go_monero.Amount.Receiving.{commitment, calc_commitment-mask}
use go_monero.PseudoOuts.{mask_loop, calc_scalars, calculate_pseudo_outs}
use go_monero.PseudoOuts.Sums.{
  sum_amounts, total, amount_log, commitments, commitments-append, total-commitments, one_more,
  exponent, fee_apart,
}

-- Randomness, and what RandomScalar returns: a scalar in its canonical bytes.
module _ (c : Curve) (w : IsCurve c) (keccak256 : Bytes → Bytes) (hash : IsHash keccak256)
    (random : ℕ → Bytes)
    (canonical : (i : ℕ) → c.scalar_bytes (canonical_or_zero c (random i)) ≡ random i) where
  open c use {Scalar, Point}

  masks_from : ℕ → ℕ → List Scalar
  masks_from zero i = []
  masks_from (suc n) i = canonical_or_zero c (random i) ∷ masks_from n (suc i)

  length-masks_from : (n i : ℕ) → length (masks_from n i) ≡ n
  unfolding masks_from
  length-masks_from zero i = refl
  length-masks_from (suc n) i = ap suc (length-masks_from n (suc i))

  calc_commitment-random :
      (amount i : ℕ)
      → amount < 2 ^ 64
      → calc_commitment c keccak256 amount (random i)
        ≡ ok (commitment c w keccak256 hash (canonical_or_zero c (random i)) amount)
  calc_commitment-random amount i h =
      ap (calc_commitment c keccak256 amount) (sym (canonical i))
      ∙ calc_commitment-mask c w keccak256 hash amount (canonical_or_zero c (random i)) h

  mask_loop-masks :
      (n i : ℕ) (sum : Scalar) (amounts left : List ℕ)
      → length amounts ≡ n
      → All (λ a. a < 2 ^ 64) amounts
      → mask_loop c keccak256 random n i sum (amounts ++ left)
        ≡ ok (record {
          outs = commitments c w keccak256 hash (masks_from n i) amounts;
          masks = masks_from n i;
          sum = calc_scalars c sum (masks_from n i);
          left = left;
        })
  unfolding mask_loop masks_from calc_scalars
  mask_loop-masks zero i sum [] left h u = refl
  mask_loop-masks zero i sum (a ∷ amounts) left h u = absurd (omega arith)
  mask_loop-masks (suc n) i sum [] left h u = absurd (omega arith)
  mask_loop-masks (suc n) i sum (a ∷ amounts) left h (p, u) = rw (
    mask_loop,
    calc_commitment-random a i p,
    mask_loop-masks n (suc i) (c.add sum (canonical_or_zero c (random i))) amounts left
        (omega arith) u,
  )

  -- For as many amounts as there are inputs, each a uint64, whose sum is that of the outputs'
  -- amounts and the fee, calculatePseudoOuts succeeds, and the sum of the pseudo outputs is
  -- the sum of the outputs' commitments plus the fee times the second generator.
  pub calculate_pseudo_outs-balance :
      (amounts : List ℕ) (amount : ℕ) (blind_scalars : List Scalar) (out_amounts : List ℕ) (fee : ℕ)
      → All (λ a. a < 2 ^ 64) amounts
      → amount < 2 ^ 64
      → length blind_scalars ≡ length out_amounts
      → sum_amounts amounts + amount ≡ sum_amounts out_amounts + fee
      → (outs : List Bytes) × (masks : List Scalar) × (p : Point) × (q : Point)
        × (calculate_pseudo_outs c keccak256 random
              (suc (length amounts))
              (amounts ++ amount ∷ [])
              blind_scalars
            ≡ ok (outs, masks))
        × (total c w outs ≡ some p)
        × (total c w (commitments c w keccak256 hash blind_scalars out_amounts) ≡ some q)
        × (p ≡ c.point_add q (c.scalar_mult (w.of_nat fee) (get_h c keccak256)))
  unfolding calculate_pseudo_outs
  calculate_pseudo_outs-balance amounts amount blind_scalars out_amounts fee u v h e =
      let n = length amounts in
      let xs = masks_from n 0 in
      let x = c.subtract (calc_scalars c c.zero blind_scalars) (calc_scalars c c.zero xs) in
      let masks = xs ++ x ∷ [] in
      let last = commitment c w keccak256 hash x amount in
      (
        commitments c w keccak256 hash xs amounts ++ last ∷ [],
        masks,
        c.scalar_base_mult (
            c.add (calc_scalars c c.zero blind_scalars)
              (amount_log c w (sum_amounts out_amounts + fee))),
        c.scalar_base_mult (
            c.add (calc_scalars c c.zero blind_scalars) (amount_log c w (sum_amounts out_amounts))),
        rw (
          mask_loop-masks n 0 c.zero amounts (amount ∷ []) refl u,
          calc_commitment-mask c w keccak256 hash amount x v,
        ),
        ap (total c w) (
              sym
                (commitments-append c w keccak256 hash xs amounts x amount (length-masks_from n 0)))
            ∙ total-commitments c w keccak256 hash masks (amounts ++ amount ∷ [])
                (one_more c w keccak256 hash xs amounts x amount (length-masks_from n 0))
            ∙ ap (λ (t : Scalar). some (c.scalar_base_mult t))
                (exponent c w keccak256 hash xs amounts amount (calc_scalars c c.zero blind_scalars)
                  (sum_amounts out_amounts + fee) e),
        total-commitments c w keccak256 hash blind_scalars out_amounts h,
        fee_apart c w keccak256 hash (calc_scalars c c.zero blind_scalars) (sum_amounts out_amounts)
            fee,
      )
