-- ===== src/Secret/Agreement.antt =====
-- Sender and receiver compute the same shared secret and the same key of an output.
use go_monero.Base.{ℕ, ◌%◌, ◌≡◌, ap, sym, some, ◌++◌, length, arith, ◌==◌, ◌&&◌, true, ok}
use go_monero.Base.Bytes.{Bytes, le_bytes, le_value}
use go_monero.Varint.{encode_varint}
use go_monero.Varint.RoundTrip.{encode_varint-uint64_to_bytes}
use go_monero.Curve.{Curve, IsCurve, group_order}
use go_monero.Secret.{
  reduce32, eight_bytes, canonical_or_uniform, canonical_or_zero, shared_secret,
  generate_key_derivation, derivation_to_scalar, derive_public_key, derive_public_key_my,
}

module _ (c : Curve) (w : IsCurve c) where
  open c use {Scalar, Point}

  -- A multiple of the base point, as bytes.
  abbrev pub base_bytes : Scalar → Bytes
  base_bytes s = c.point_bytes (c.scalar_base_mult s)

  -- 8 a b times the base point: what two sides with the secrets `a` and `b` share.
  abbrev pub shared : Scalar → Scalar → Bytes
  shared a b = base_bytes (c.multiply (w.of_nat 8) (c.multiply a b))

  pub shared_comm : (a b : Scalar) → shared a b ≡ shared b a
  shared_comm a b = ap (λ (s : Scalar). base_bytes (c.multiply (w.of_nat 8) s)) (w.mul_comm a b)

  pub canonical_or_uniform-scalar_bytes :
      (s : Scalar) → canonical_or_uniform c (c.scalar_bytes s) ≡ s
  unfolding canonical_or_uniform
  canonical_or_uniform-scalar_bytes s = rw (canonical_or_uniform, w.canonical s)

  pub canonical_or_uniform-reduced :
      (n : ℕ) → canonical_or_uniform c (le_bytes 32 (n % group_order)) ≡ w.of_nat n
  unfolding canonical_or_uniform
  canonical_or_uniform-reduced n = rw (canonical_or_uniform, w.reduced n)

  pub canonical_or_zero-eight : canonical_or_zero c eight_bytes ≡ w.of_nat 8
  unfolding canonical_or_zero
  canonical_or_zero-eight = rw (canonical_or_zero, w.reduced 8)

  both_32 :
      (a b : Bytes) → length a ≡ 32 → length b ≡ 32 → (length a == 32 && length b == 32) ≡ true
  both_32 a b h k = ground arith

  is_32 : (a : Bytes) → length a ≡ 32 → (length a == 32) ≡ true
  is_32 a h = ground arith

  pub shared_secret-base :
      (a b : Scalar) → shared_secret c (base_bytes a) (c.scalar_bytes b) ≡ ok (shared b a)
  unfolding shared_secret
  shared_secret-base a b = rw (
    both_32 (base_bytes a) (c.scalar_bytes b) (w.point_32 (c.scalar_base_mult a)) (w.scalar_32 b),
    w.decodable (c.scalar_base_mult a),
    canonical_or_uniform-scalar_bytes b,
    canonical_or_uniform-reduced 8,
    w.mult-base (c.multiply (w.of_nat 8) b) a,
    w.mul_assoc (w.of_nat 8) b a,
  )

  pub generate_key_derivation-base :
      (a b : Scalar)
      → generate_key_derivation c (base_bytes a) (c.scalar_bytes b) ≡ some (shared b a)
  unfolding generate_key_derivation
  generate_key_derivation-base a b = rw (
    generate_key_derivation,
    w.ge_decodable (c.scalar_base_mult a),
    w.ge_mult_lem b (c.scalar_base_mult a),
    w.mult-base b a,
    w.ge_mul8_lem (c.scalar_base_mult (c.multiply b a)),
    w.mult-base (w.of_nat 8) (c.multiply b a),
    w.ge_to_bytes_lem (c.scalar_base_mult (c.multiply (w.of_nat 8) (c.multiply b a))),
  )

  module _ (keccak256 : Bytes → Bytes) where
    -- The scalar that both sides get from the shared secret and the output's place.
    abbrev pub output_scalar : Bytes → ℕ → Scalar
    output_scalar derivation i = w.of_nat (le_value (keccak256 (derivation ++ encode_varint i)))

    pub derivation_to_scalar-output :
        (derivation : Bytes) (i : ℕ)
        → derivation_to_scalar c keccak256 derivation i
          ≡ c.scalar_bytes (output_scalar derivation i)
    unfolding derivation_to_scalar
    derivation_to_scalar-output derivation i =
        rw (derivation_to_scalar, sym (encode_varint-uint64_to_bytes i))
          (w.sc_reduce32_lem (keccak256 (derivation ++ encode_varint i)))

    pub derive_public_key-base :
        (derivation : Bytes) (i : ℕ) (b : Scalar)
        → derive_public_key c keccak256 derivation i (base_bytes b)
          ≡ some (base_bytes (c.add b (output_scalar derivation i)))
    unfolding derive_public_key
    derive_public_key-base derivation i b = rw (
      derive_public_key,
      w.ge_decodable (c.scalar_base_mult b),
      derivation_to_scalar-output derivation i,
      w.ge_mult_base_lem (output_scalar derivation i),
      w.ge_add_lem (c.scalar_base_mult b) (c.scalar_base_mult (output_scalar derivation i)),
      w.add-base b (output_scalar derivation i),
      w.ge_to_bytes_lem (c.scalar_base_mult (c.add b (output_scalar derivation i))),
    )

    pub derive_public_key_my-base :
        (r v b : Scalar) (i : ℕ)
        → derive_public_key_my c keccak256 (base_bytes r) (c.scalar_bytes v) (base_bytes b) i
          ≡ ok (base_bytes (c.add b (output_scalar (shared v r) i)))
    unfolding derive_public_key_my reduce32
    derive_public_key_my-base r v b i = rw (
      is_32 (base_bytes r) (w.point_32 (c.scalar_base_mult r)),
      is_32 (c.scalar_bytes v) (w.scalar_32 v),
      is_32 (base_bytes b) (w.point_32 (c.scalar_base_mult b)),
      w.decodable (c.scalar_base_mult r),
      w.canonical v,
      canonical_or_zero-eight,
      w.mult-base v r,
      w.mult-base (w.of_nat 8) (c.multiply v r),
      canonical_or_uniform-reduced (le_value (keccak256 (shared v r ++ encode_varint i))),
      w.decodable (c.scalar_base_mult b),
      w.add-base (output_scalar (shared v r) i) b,
      w.add_comm (output_scalar (shared v r) i) b,
    )
