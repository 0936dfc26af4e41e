-- ===== src/PseudoOuts/Sums.antt =====
-- Sums of commitments, as multiples of the base point.
use go_monero.Base.{
  ℕ, ◌+◌, ◌≡◌, refl, ap, sym, ◌∙◌, Option, none, some, List, [], ◌∷◌, ◌++◌, length, length-append,
  arith,
}
use go_monero.Base.Bytes.{Bytes}
use go_monero.Curve.{Curve, IsCurve}
use go_monero.Address.Format.{IsHash}
use go_monero.Amount.{get_h}
use go_monero.Amount.Receiving.{commitment}
use go_monero.PseudoOuts.{calc_scalars}

abbrev pub sum_amounts : List ℕ → ℕ
sum_amounts [] = 0
sum_amounts (a ∷ amounts) = a + sum_amounts amounts

sum_amounts-append :
    (amounts : List ℕ) (a : ℕ) → sum_amounts (amounts ++ a ∷ []) ≡ sum_amounts amounts + a
sum_amounts-append [] a = omega arith
sum_amounts-append (b ∷ amounts) a = omega (arith, sum_amounts-append amounts a)

module _ (c : Curve) (w : IsCurve c) where
  open c use {Scalar, Point}

  -- The sum of points that are given as bytes; the empty sum is 0 times the base point.
  unfoldable pub total : List Bytes → Option Point
  total [] = some (c.scalar_base_mult c.zero)
  total (b ∷ bs) = elim (c.set_point b) [
    | none ↦ none
    | some p ↦ elim (total bs) [ none ↦ none | some q ↦ some (c.point_add p q) ]
  ]

  pub add-zero : (a : Scalar) → c.add a c.zero ≡ a
  add-zero a = w.add_comm a c.zero ∙ w.zero-add a

  -- (a + x) + (b + y)
  pub interchange :
      (a x b y : Scalar) → c.add (c.add a x) (c.add b y) ≡ c.add (c.add a b) (c.add x y)
  interchange a x b y =
      w.add_assoc a x (c.add b y)
      ∙ ap (c.add a) (
          sym (w.add_assoc x b y)
          ∙ ap (λ (t : Scalar). c.add t y) (w.add_comm x b)
          ∙ w.add_assoc b x y)
      ∙ sym (w.add_assoc a b (c.add x y))

  pub add-mul :
      (a b d : Scalar) → c.multiply (c.add a b) d ≡ c.add (c.multiply a d) (c.multiply b d)
  add-mul a b d =
      w.mul_comm (c.add a b) d
      ∙ w.mul-add d a b
      ∙ ap (λ (t : Scalar). c.add t (c.multiply d b)) (w.mul_comm d a)
      ∙ ap (c.add (c.multiply a d)) (w.mul_comm d b)

  zero_of_double : (a : Scalar) → c.add a a ≡ a → a ≡ c.zero
  zero_of_double a e =
      let n = c.subtract c.zero a in
      sym (w.zero-add a)
      ∙ ap (λ (t : Scalar). c.add t a) (sym (w.subtract-add c.zero a))
      ∙ w.add_assoc n a a
      ∙ ap (c.add n) e
      ∙ w.subtract-add c.zero a

  calc_scalars-add :
      (s : Scalar) (xs : List Scalar) → calc_scalars c s xs ≡ c.add s (calc_scalars c c.zero xs)
  unfolding calc_scalars
  calc_scalars-add s [] = sym (add-zero s)
  calc_scalars-add s (x ∷ xs) =
      calc_scalars-add (c.add s x) xs
      ∙ w.add_assoc s x (calc_scalars c c.zero xs)
      ∙ ap (c.add s) (
          sym (calc_scalars-add x xs)
          ∙ ap (λ (t : Scalar). calc_scalars c t xs) (sym (w.zero-add x)))

  calc_scalars-cons :
      (x : Scalar) (xs : List Scalar)
      → calc_scalars c c.zero (x ∷ xs) ≡ c.add x (calc_scalars c c.zero xs)
  unfolding calc_scalars
  calc_scalars-cons x xs =
      calc_scalars-add (c.add c.zero x) xs
      ∙ ap (λ (t : Scalar). c.add t (calc_scalars c c.zero xs)) (w.zero-add x)

  calc_scalars-nil : calc_scalars c c.zero [] ≡ c.zero
  unfolding calc_scalars
  calc_scalars-nil = refl

  calc_scalars-append :
      (xs : List Scalar) (x : Scalar)
      → calc_scalars c c.zero (xs ++ x ∷ []) ≡ c.add (calc_scalars c c.zero xs) x
  calc_scalars-append [] x = calc_scalars-cons x [] ∙ swap
    where
      swap : c.add x (calc_scalars c c.zero []) ≡ c.add (calc_scalars c c.zero []) x
      swap = w.add_comm x (calc_scalars c c.zero [])
  calc_scalars-append (y ∷ xs) x =
      calc_scalars-cons y (xs ++ x ∷ [])
      ∙ ap (c.add y) (calc_scalars-append xs x)
      ∙ sym (w.add_assoc y (calc_scalars c c.zero xs) x)
      ∙ ap (λ (t : Scalar). c.add t x) (sym (calc_scalars-cons y xs))

  -- An amount times the second generator, as a multiple of the base point.
  abbrev pub amount_log : ℕ → Scalar
  amount_log a = c.multiply (w.of_nat a) w.h_log

  pub amount_log-add : (a b : ℕ) → amount_log (a + b) ≡ c.add (amount_log a) (amount_log b)
  amount_log-add a b =
      ap (λ (t : Scalar). c.multiply t w.h_log) (w.of_nat-add a b)
      ∙ add-mul (w.of_nat a) (w.of_nat b) w.h_log

  pub amount_log-zero : amount_log 0 ≡ c.zero
  amount_log-zero = zero_of_double (amount_log 0) (sym (amount_log-add 0 0))

  module _ (keccak256 : Bytes → Bytes) (hash : IsHash keccak256) where
    -- The commitments to amounts with these masks.
    abbrev pub commitments : List Scalar → List ℕ → List Bytes
    commitments [] amounts = []
    commitments (x ∷ xs) [] = []
    commitments (x ∷ xs) (a ∷ amounts) = commitment c w keccak256 hash x a ∷ commitments xs amounts

    get_h-log : get_h c keccak256 ≡ c.scalar_base_mult w.h_log
    unfolding get_h
    get_h-log = rw (get_h, w.h_decodable)

    commitment-log :
        (x : Scalar) (a : ℕ)
        → c.set_point (commitment c w keccak256 hash x a)
          ≡ some (c.scalar_base_mult (c.add x (amount_log a)))
    commitment-log x a =
        w.decodable _
        ∙ ap some (
            ap (λ (h : Point). c.point_add (c.scalar_base_mult x) (c.scalar_mult (w.of_nat a) h))
              get_h-log
            ∙ ap (c.point_add (c.scalar_base_mult x)) (w.mult-base (w.of_nat a) w.h_log)
            ∙ w.add-base x (amount_log a))

    pub total-commitments :
        (xs : List Scalar) (amounts : List ℕ)
        → length xs ≡ length amounts
        → total (commitments xs amounts)
          ≡ some (
              c.scalar_base_mult
                (c.add (calc_scalars c c.zero xs) (amount_log (sum_amounts amounts))))
    unfolding total
    total-commitments [] [] h =
        ap (λ (t : Scalar). some (c.scalar_base_mult t)) (sym (w.zero-add c.zero) ∙ zeros)
      where
        zeros : c.add c.zero c.zero ≡ c.add (calc_scalars c c.zero []) (amount_log 0)
        zeros =
            ap (c.add c.zero) (sym amount_log-zero)
            ∙ ap (λ (t : Scalar). c.add t (amount_log 0)) (sym calc_scalars-nil)
    total-commitments [] (a ∷ amounts) h = absurd (omega arith)
    total-commitments (x ∷ xs) [] h = absurd (omega arith)
    total-commitments (x ∷ xs) (a ∷ amounts) h = rw (
      total,
      commitment-log x a,
      total-commitments xs amounts (omega arith),
      w.add-base (c.add x (amount_log a))
          (c.add (calc_scalars c c.zero xs) (amount_log (sum_amounts amounts))),
      interchange x (amount_log a) (calc_scalars c c.zero xs) (amount_log (sum_amounts amounts)),
      sym (calc_scalars-cons x xs),
      sym (amount_log-add a (sum_amounts amounts)),
    )

    pub commitments-append :
        (xs : List Scalar) (amounts : List ℕ) (x : Scalar) (a : ℕ)
        → length xs ≡ length amounts
        → commitments (xs ++ x ∷ []) (amounts ++ a ∷ [])
          ≡ commitments xs amounts ++ commitment c w keccak256 hash x a ∷ []
    commitments-append [] [] x a h = refl
    commitments-append [] (b ∷ amounts) x a h = absurd (omega arith)
    commitments-append (y ∷ xs) [] x a h = absurd (omega arith)
    commitments-append (y ∷ xs) (b ∷ amounts) x a h =
        ap (◌∷◌ (commitment c w keccak256 hash y b))
          (commitments-append xs amounts x a (omega arith))

    pub one_more :
        (xs : List Scalar) (amounts : List ℕ) (x : Scalar) (a : ℕ)
        → length xs ≡ length amounts
        → length (xs ++ x ∷ []) ≡ length (amounts ++ a ∷ [])
    one_more xs amounts x a h =
        length-append xs (x ∷ []) ∙ ap (λ (n : ℕ). n + 1) h ∙ sym (length-append amounts (a ∷ []))

    -- The last mask makes the sum of the masks `total_mask`.
    pub exponent :
        (xs : List Scalar) (amounts : List ℕ) (amount : ℕ) (total_mask : Scalar) (sum : ℕ)
        → sum_amounts amounts + amount ≡ sum
        → c.add
            (calc_scalars c c.zero (xs ++ c.subtract total_mask (calc_scalars c c.zero xs) ∷ []))
            (amount_log (sum_amounts (amounts ++ amount ∷ [])))
          ≡ c.add total_mask (amount_log sum)
    exponent xs amounts amount total_mask sum e =
        let s = calc_scalars c c.zero xs in
        ap (λ (t : Scalar). c.add t (amount_log (sum_amounts (amounts ++ amount ∷ []))))
          (calc_scalars-append xs (c.subtract total_mask s)
            ∙ w.add_comm s (c.subtract total_mask s)
            ∙ w.subtract-add total_mask s)
        ∙ ap (λ (m : ℕ). c.add total_mask (amount_log m)) (sum_amounts-append amounts amount ∙ e)

    pub fee_apart :
        (s : Scalar) (sum fee : ℕ)
        → c.scalar_base_mult (c.add s (amount_log (sum + fee)))
          ≡ c.point_add
              (c.scalar_base_mult (c.add s (amount_log sum)))
              (c.scalar_mult (w.of_nat fee) (get_h c keccak256))
    fee_apart s sum fee =
        let front = c.scalar_base_mult (c.add s (amount_log sum)) in
        ap c.scalar_base_mult (
          ap (c.add s) (amount_log-add sum fee)
          ∙ sym (w.add_assoc s (amount_log sum) (amount_log fee)))
        ∙ sym (w.add-base (c.add s (amount_log sum)) (amount_log fee))
        ∙ ap (c.point_add front) (
            sym (w.mult-base (w.of_nat fee) w.h_log)
            ∙ ap (c.scalar_mult (w.of_nat fee)) (sym get_h-log))
