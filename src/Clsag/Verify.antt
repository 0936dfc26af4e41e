-- ===== src/Clsag/Verify.antt =====
-- A verifier of the ring signatures, after the definition of the scheme, over scalars and points; it
-- shares with the signer only the order of the keys that are hashed. And the rounds of the
-- signer, which compute the same.
use go_monero.Base.{◌≡◌, ap, ◌∙◌, Bool, false, Option, none, some, List, [], ◌∷◌, map, ok}
use go_monero.Base.Bytes.{Bytes, codes, le_value, bytes_eq}
use go_monero.Curve.{Curve, IsCurve}
use go_monero.Secret.{hash_to_ec}
use go_monero.Tx.{Clsag, hashes_bytes}
use go_monero.Clsag.{tag, aggregate, round_keys, sc_mul, hash_to_scalar, next_challenge}

-- Points P, and commitments C less the pseudo output, of a ring.
abbrev pub Members : Curve → Type 0
Members c = List (Curve.Point c × Curve.Point c)

module _ (c : Curve) where
  open c use {Scalar, Point}

  abbrev pub keys_of : Members c → List Bytes
  keys_of ring = map (λ m. c.point_bytes m.0) ring

  abbrev pub masks_of : Members c → List Bytes
  masks_of ring = map (λ m. c.point_bytes m.1) ring

  abbrev pub less : Point → Members c → Members c
  less pseudo_out ring = map (λ m. (m.0, c.ge_sub m.1 pseudo_out)) ring

  -- From a challenge through the members of a ring and their responses.
  unfoldable pub walk :
      (Point × Point → Scalar → Scalar → Scalar) → Members c → List Bytes → Scalar → Option Scalar
  walk round [] [] challenge = some challenge
  walk round [] (s ∷ ss) challenge = none
  walk round (m ∷ ring) [] challenge = none
  walk round (m ∷ ring) (s ∷ ss) challenge = elim (c.set_canonical s) [
    | none ↦ none
    | some x ↦ walk round ring ss (round m x challenge)
  ]

module _ (c : Curve) (w : IsCurve c) where
  open c use {Scalar, Point}

  pub sc_mul-scalar_bytes :
      (a b : Scalar)
      → sc_mul c (c.scalar_bytes a) (c.scalar_bytes b) ≡ ok (c.scalar_bytes (c.multiply a b))
  unfolding sc_mul
  sc_mul-scalar_bytes a b = rw (
    sc_mul,
    w.reduced_value (c.scalar_bytes a),
    w.reduced_value (c.scalar_bytes b),
    w.scalar_value a,
    w.scalar_value b,
  )

  pub read-to_bytes : (p : Point) → c.ge_read (c.ge_to_bytes p) ≡ p
  read-to_bytes p = ap c.ge_read (w.ge_to_bytes_lem p) ∙ w.ge_read_lem p

module _ (c : Curve) (w : IsCurve c) (keccak256 : Bytes → Bytes) where
  open c use {Scalar, Point}

  -- The scalar of a hash.
  abbrev pub hash_scalar : List Bytes → Scalar
  hash_scalar keys = w.of_nat (le_value (keccak256 (hashes_bytes keys)))

  -- The next challenge: the hash of s G + c (mu_P P + mu_C C) and s H + c (mu_P I + mu_C D).
  unfoldable pub round :
      (Bytes → Bytes → List Bytes)
      → Scalar
      → Scalar
      → Point
      → Point
      → Point × Point
      → Scalar
      → Scalar
      → Scalar
  round to_hash mu_p mu_c image d m s challenge =
      let c_p = c.multiply challenge mu_p in
      let c_c = c.multiply challenge mu_c in
      hash_scalar (
        to_hash
          (c.point_bytes (
            c.point_add (c.scalar_base_mult s)
              (c.point_add (c.scalar_mult c_p m.0) (c.scalar_mult c_c m.1))))
          (c.point_bytes (
            c.point_add (c.scalar_mult s (hash_to_ec c keccak256 (c.point_bytes m.0)))
              (c.point_add (c.scalar_mult c_p image) (c.scalar_mult c_c d)))))

  unfoldable pub aggregate_scalar : Bytes → Members c → Point → Point → Bytes → Scalar
  aggregate_scalar domain ring pseudo_out image d = hash_scalar (
      aggregate (tag domain) (keys_of c ring) (masks_of c ring) (c.point_bytes image) d
        (c.point_bytes pseudo_out))

  -- A signature with the point D / 8 is accepted when its rounds lead from its challenge back to
  -- this challenge.
  unfoldable pub verify : Bytes → Members c → Point → Point → Clsag → Bool
  verify message ring pseudo_out image sig = elim (c.set_point (Clsag.d sig)) [
    | none ↦ false
    | some d ↦ elim (c.set_canonical (Clsag.c1 sig)) [
      | none ↦ false
      | some c1 ↦
          elim (walk c
            (round
              (round_keys (keys_of c ring) (masks_of c ring) (c.point_bytes pseudo_out) message)
              (aggregate_scalar (codes "CLSAG_agg_0") ring pseudo_out image (Clsag.d sig))
              (aggregate_scalar (codes "CLSAG_agg_1") ring pseudo_out image (Clsag.d sig)) image
              (c.scalar_mult (w.of_nat 8) d))
            (less c pseudo_out ring) (Clsag.s sig) c1) [
              | none ↦ false
              | some back ↦ bytes_eq (c.scalar_bytes back) (Clsag.c1 sig)
            ]
    ]
  ]

  pub hash_to_scalar-hash_scalar :
      (keys : List Bytes) → hash_to_scalar c keccak256 keys ≡ c.scalar_bytes (hash_scalar keys)
  unfolding hash_to_scalar
  hash_to_scalar-hash_scalar keys = w.sc_reduce32_lem (keccak256 (hashes_bytes keys))

  pub next_challenge-round :
      (to_hash : Bytes → Bytes → List Bytes) (mu_p mu_c : Scalar) (image d p q : Point)
      (s challenge : Scalar)
      → next_challenge c keccak256 to_hash
          (c.scalar_bytes mu_p)
          (c.scalar_bytes mu_c)
          (c.point_bytes image)
          (c.point_bytes d)
          (c.point_bytes p)
          (c.point_bytes q)
          (c.scalar_bytes s)
          (c.scalar_bytes challenge)
        ≡ ok (c.scalar_bytes (round to_hash mu_p mu_c image d (p, q) s challenge))
  unfolding next_challenge round
  next_challenge-round to_hash mu_p mu_c image d p q s challenge =
      let c_p = c.multiply challenge mu_p in
      let c_c = c.multiply challenge mu_c in
      let h = hash_to_ec c keccak256 (c.point_bytes p) in
      rw (
        next_challenge,
        sc_mul-scalar_bytes c w challenge mu_p,
        sc_mul-scalar_bytes c w challenge mu_c,
        w.ge_read_lem p,
        w.ge_read_lem q,
        w.ge_read_lem image,
        w.ge_read_lem d,
        read-to_bytes c w h,
        w.ge_triple_base_lem s c_p c_c p q,
        w.ge_triple_lem s c_p c_c h image d,
        hash_to_scalar-hash_scalar _,
      )
