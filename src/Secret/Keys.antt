-- ===== src/Secret/Keys.antt =====
-- The keys of an output, made by its sender and found again by its receiver, and the key image.
use go_monero.Base.{ℕ, ◌≡◌, refl, ap, ◌∙◌, some, ok}
use go_monero.Base.Bytes.{Bytes, bytes_eq_refl}
use go_monero.Curve.{Curve, IsCurve}
use go_monero.Secret.{
  generate_key_derivation, derive_public_key, derive_secret_key, derive_public_key_my, pub_key,
  hash_to_ec, generate_key_image, create_key_image,
}
use go_monero.Secret.Agreement.{
  base_bytes, shared, shared_comm, output_scalar, generate_key_derivation-base,
  derivation_to_scalar-output, derive_public_key-base, derive_public_key_my-base,
}

module _ (c : Curve) (w : IsCurve c) (keccak256 : Bytes → Bytes) where
  open c use {Scalar}

  -- The secret key of the output `i` of a transaction with the secret `r`, sent to the view
  -- secret `v` and the spend secret `b`.
  abbrev pub output_secret : Scalar → Scalar → Scalar → ℕ → Scalar
  output_secret r v b i = c.add b (output_scalar c w keccak256 (shared c w v r) i)

  derive_secret_key-base :
      (derivation : Bytes) (i : ℕ) (b : Scalar)
      → derive_secret_key c keccak256 derivation i (c.scalar_bytes b)
        ≡ c.scalar_bytes (c.add b (output_scalar c w keccak256 derivation i))
  unfolding derive_secret_key
  derive_secret_key-base derivation i b =
      rw (derive_secret_key, derivation_to_scalar-output c w keccak256 derivation i)
        (w.sc_add_lem b (output_scalar c w keccak256 derivation i))

  pub pub_key-base : (x : Scalar) → pub_key c (c.scalar_bytes x) ≡ base_bytes c w x
  unfolding pub_key
  pub_key-base x = rw (pub_key, w.ge_mult_base_lem x) (w.ge_to_bytes_lem (c.scalar_base_mult x))

  generate_key_image-base :
      (x : Scalar)
      → generate_key_image c keccak256 (c.scalar_bytes x)
        ≡ c.point_bytes (c.scalar_mult x (hash_to_ec c keccak256 (base_bytes c w x)))
  unfolding generate_key_image
  generate_key_image-base x =
      rw
        (
          generate_key_image,
          pub_key-base x,
          w.ge_mult_lem x (hash_to_ec c keccak256 (base_bytes c w x)),
        )
        (w.ge_to_bytes_lem (c.scalar_mult x (hash_to_ec c keccak256 (base_bytes c w x))))

  -- The key that the sender puts on an output (GenerateKeyDerivation with the transaction's secret
  -- and the view key, DerivePublicKey) is the one that the receiver computes (DerivePublicKeyMy with
  -- the transaction's public key and the view secret). For it CreateKeyImage finds the secret key,
  -- whose public key it is, and returns the key image, the secret key times the point that the
  -- public key is hashed to.
  pub create_key_image-derive_public_key :
      (r v b : Scalar) (i : ℕ)
      → (derivation : Bytes) × (key : Bytes) × (x : Scalar) × (generate_key_derivation c
            (base_bytes c w v)
            (c.scalar_bytes r)
          ≡ some derivation)
        × (derive_public_key c keccak256 derivation i (base_bytes c w b) ≡ some key)
        × (derive_public_key_my c keccak256
              (base_bytes c w r)
              (c.scalar_bytes v)
              (base_bytes c w b)
              i
            ≡ ok key)
        × (base_bytes c w x ≡ key)
        × (create_key_image c keccak256
              (base_bytes c w b)
              (c.scalar_bytes b)
              (c.scalar_bytes v)
              (base_bytes c w r)
              i
            ≡ ok (c.point_bytes (c.scalar_mult x (hash_to_ec c keccak256 key)), c.scalar_bytes x))
  unfolding create_key_image
  create_key_image-derive_public_key r v b i =
      let d = shared c w v r in
      let x = output_secret r v b i in
      let key = base_bytes c w x in
      (
        d,
        key,
        x,
        generate_key_derivation-base c w v r ∙ ap some (shared_comm c w r v),
        derive_public_key-base c w keccak256 d i b,
        derive_public_key_my-base c w keccak256 r v b i,
        refl,
        rw (
          generate_key_derivation-base c w r v,
          derive_public_key-base c w keccak256 d i b,
          derive_secret_key-base d i b,
          pub_key-base x,
          bytes_eq_refl key,
          generate_key_image-base x,
        ),
      )
