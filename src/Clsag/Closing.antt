-- ===== src/Clsag/Closing.antt =====
-- The signer's own round: clsagSign chooses the response for which the two points of the round are
-- those that the signature began with.
use go_monero.Base.{◌≡◌, ap, sym, ◌∙◌, List, ok}
use go_monero.Base.Bytes.{Bytes}
use go_monero.Curve.{Curve, IsCurve, inv_eight_bytes}
use go_monero.Secret.{hash_to_ec}
use go_monero.PseudoOuts.Sums.{add-mul}
use go_monero.Clsag.{clsag_sign, key_mult, sub_keys}
use go_monero.Clsag.Verify.{round, hash_scalar, sc_mul-scalar_bytes}

module _ (c : Curve) (w : IsCurve c) where
  open c use {Scalar, Point}

  -- a - (c mu_P p + c mu_C z)
  abbrev pub response : Scalar → Scalar → Scalar → Scalar → Scalar → Scalar → Scalar
  response challenge a p z mu_p mu_c =
      c.subtract a (
        c.add (c.multiply (c.multiply challenge mu_p) p) (c.multiply (c.multiply challenge mu_c) z))

  pub clsag_sign-response :
      (challenge a p z mu_p mu_c : Scalar)
      → clsag_sign c
          (c.scalar_bytes challenge)
          (c.scalar_bytes a)
          (c.scalar_bytes p)
          (c.scalar_bytes z)
          (c.scalar_bytes mu_p)
          (c.scalar_bytes mu_c)
        ≡ ok (c.scalar_bytes (response challenge a p z mu_p mu_c))
  unfolding clsag_sign
  clsag_sign-response challenge a p z mu_p mu_c =
      let c_p = c.multiply challenge mu_p in
      let c_c = c.multiply challenge mu_c in
      rw (
        clsag_sign,
        sc_mul-scalar_bytes c w challenge mu_p,
        sc_mul-scalar_bytes c w challenge mu_c,
        sc_mul-scalar_bytes c w c_p p,
        sc_mul-scalar_bytes c w c_c z,
        w.sc_add_lem (c.multiply c_p p) (c.multiply c_c z),
        w.sc_sub_lem a (c.add (c.multiply c_p p) (c.multiply c_c z)),
      )

  -- With the response `s` to the multiples `x` and `y` of a point.
  closes :
      (a x y h : Scalar)
      → c.add (c.multiply (c.subtract a (c.add x y)) h) (c.add (c.multiply x h) (c.multiply y h))
        ≡ c.multiply a h
  closes a x y h =
      ap (c.add (c.multiply (c.subtract a (c.add x y)) h)) (sym (add-mul c w x y h))
      ∙ sym (add-mul c w (c.subtract a (c.add x y)) (c.add x y) h)
      ∙ ap (λ (t : Scalar). c.multiply t h) (w.subtract-add a (c.add x y))

  sum_of_bases :
      (s x y : Scalar)
      → c.point_add
          (c.scalar_base_mult s)
          (c.point_add (c.scalar_base_mult x) (c.scalar_base_mult y))
        ≡ c.scalar_base_mult (c.add s (c.add x y))
  sum_of_bases s x y =
      ap (c.point_add (c.scalar_base_mult s)) (w.add-base x y) ∙ w.add-base s (c.add x y)

  left_point :
      (a p z c_p c_c : Scalar)
      → c.point_add
          (c.scalar_base_mult (c.subtract a (c.add (c.multiply c_p p) (c.multiply c_c z))))
          (c.point_add
            (c.scalar_mult c_p (c.scalar_base_mult p))
            (c.scalar_mult c_c (c.scalar_base_mult z)))
        ≡ c.scalar_base_mult a
  left_point a p z c_p c_c =
      rw (w.mult-base c_p p, w.mult-base c_c z)
        (sum_of_bases _ (c.multiply c_p p) (c.multiply c_c z)
          ∙ ap c.scalar_base_mult (w.subtract-add a _))

  right_point :
      (a p z c_p c_c h : Scalar)
      → c.point_add
          (c.scalar_mult
            (c.subtract a (c.add (c.multiply c_p p) (c.multiply c_c z)))
            (c.scalar_base_mult h))
          (c.point_add
            (c.scalar_mult c_p (c.scalar_mult p (c.scalar_base_mult h)))
            (c.scalar_mult c_c (c.scalar_mult z (c.scalar_base_mult h))))
        ≡ c.scalar_mult a (c.scalar_base_mult h)
  right_point a p z c_p c_c h =
      let s = c.subtract a (c.add (c.multiply c_p p) (c.multiply c_c z)) in
      rw
        (
          w.mult-base s h,
          w.mult-base p h,
          w.mult-base z h,
          w.mult-base c_p (c.multiply p h),
          w.mult-base c_c (c.multiply z h),
          w.mult-base a h,
          sym (w.mul_assoc c_p p h),
          sym (w.mul_assoc c_c z h),
        )
        (sum_of_bases (c.multiply s h) (c.multiply (c.multiply c_p p) h)
            (c.multiply (c.multiply c_c z) h)
          ∙ ap c.scalar_base_mult (closes a (c.multiply c_p p) (c.multiply c_c z) h))

  -- 8 times the point that is sent, D / 8.
  pub eight_of_sent :
      (z h : Scalar)
      → c.scalar_mult
          (w.of_nat 8)
          (c.scalar_mult w.inv_eight (c.scalar_mult z (c.scalar_base_mult h)))
        ≡ c.scalar_mult z (c.scalar_base_mult h)
  eight_of_sent z h = rw (
    w.mult-base z h,
    w.mult-base w.inv_eight (c.multiply z h),
    w.mult-base (w.of_nat 8) (c.multiply w.inv_eight (c.multiply z h)),
    w.eight_inverse (c.multiply z h),
  )

  pub key_mult-scalar_bytes :
      (s : Scalar) (p : Point)
      → key_mult c (c.scalar_bytes s) (c.point_bytes p) ≡ c.point_bytes (c.scalar_mult s p)
  unfolding key_mult
  key_mult-scalar_bytes s p =
      rw (key_mult, w.ge_read_lem p, w.ge_mult_lem s p, w.ge_to_bytes_lem (c.scalar_mult s p))

  pub key_mult-inv_eight :
      (p : Point)
      → key_mult c inv_eight_bytes (c.point_bytes p) ≡ c.point_bytes (c.scalar_mult w.inv_eight p)
  key_mult-inv_eight p =
      ap (λ b. key_mult c b (c.point_bytes p)) w.inv_eight_lem ∙ key_mult-scalar_bytes w.inv_eight p

  pub sub_keys-point_bytes :
      (p q : Point) → sub_keys c (c.point_bytes p) (c.point_bytes q) ≡ c.point_bytes (c.ge_sub p q)
  unfolding sub_keys
  sub_keys-point_bytes p q =
      rw (sub_keys, w.ge_read_lem p, w.ge_read_lem q) (w.ge_to_bytes_lem (c.ge_sub p q))

  module _ (keccak256 : Bytes → Bytes) where
    -- The point of a multiple of the base point.
    abbrev pub hash_point : Scalar → Point
    hash_point p = hash_to_ec c keccak256 (c.point_bytes (c.scalar_base_mult p))

    pub hash_point-base : (p : Scalar) → (h : Scalar) × (hash_point p ≡ c.scalar_base_mult h)
    unfolding hash_to_ec
    hash_point-base p = (
      w.log (keccak256 (c.point_bytes (c.scalar_base_mult p))),
      w.hash_log (keccak256 (c.point_bytes (c.scalar_base_mult p))),
    )

    pub round-response :
        (to_hash : Bytes → Bytes → List Bytes) (mu_p mu_c challenge a p z : Scalar)
        → round c w keccak256 to_hash mu_p mu_c
            (c.scalar_mult p (hash_point p))
            (c.scalar_mult z (hash_point p))
            (c.scalar_base_mult p, c.scalar_base_mult z)
            (response challenge a p z mu_p mu_c)
            challenge
          ≡ hash_scalar c w keccak256 (
              to_hash
                (c.point_bytes (c.scalar_base_mult a))
                (c.point_bytes (c.scalar_mult a (hash_point p))))
    unfolding round
    round-response to_hash mu_p mu_c challenge a p z =
        let (h, e) = hash_point-base p in
        rw (
          round,
          e,
          left_point a p z (c.multiply challenge mu_p) (c.multiply challenge mu_c),
          right_point a p z (c.multiply challenge mu_p) (c.multiply challenge mu_c) h,
        )
