-- ===== src/Amount/Receiving.antt =====
-- The receiver of an output finds what its sender hid.
use native.Mathlib.Nat.{pow-suc, mod-eq_of_lt}
use go_monero.Base.{
  ℕ, zero, suc, ◌+◌, ◌/◌, ◌%◌, ◌^◌, ◌<◌, ◌≡◌, ap, sym, ◌∙◌, some, ◌∷◌, ◌++◌, length, length-append,
  arith, ok,
}
use go_monero.Base.Bytes.{
  Bytes, codes, le_bytes, le_value, length-le_bytes, le_bytes-IsBytes, le_value-le_bytes,
}
use go_monero.Varint.{encode_varint}
use go_monero.Curve.{Curve, IsCurve, group_order}
use go_monero.Address.Format.{IsHash}
use go_monero.Secret.{padded}
use go_monero.Secret.Agreement.{base_bytes, shared, shared_secret-base}
use go_monero.PaymentId.RoundTrip.{xor_bytes_twice, is_n}
use go_monero.Amount.{
  amount_loop, uniform_or_zero, derive_view_tag, receiver_view_tag, hs_bytes, encrypt_rct_amount,
  decode_rct_amount, get_h, calc_commitment, calc_out_pk, generate_bulletproof_plus_mask,
}
use go_monero.Amount.Xor.{amount_loop-value}

-- A number with more room is the same bytes and zeros.
le_bytes-more : (k j v : ℕ) → v < 256 ^ k → le_bytes k v ++ le_bytes j 0 ≡ le_bytes (k + j) v
unfolding le_bytes
le_bytes-more zero j v h =
    ap (le_bytes j) {x = 0} {y = v} (omega arith)
    ∙ ap (λ (n : ℕ). le_bytes n v) {x = j} {y = 0 + j} (omega arith)
le_bytes-more (suc k) j v h =
    ap (◌∷◌ (v % 256)) (le_bytes-more k j (v / 256) (omega (arith, pow-suc 256 k)))
    ∙ ap (λ (n : ℕ). le_bytes n v) {x = suc (k + j)} {y = suc k + j} (omega arith)

module _ (c : Curve) (w : IsCurve c) (keccak256 : Bytes → Bytes) (hash : IsHash keccak256) where
  open c use {Scalar}

  -- The scalar of a hash.
  abbrev pub hash_scalar : Bytes → Scalar
  hash_scalar b = w.of_nat (le_value (padded (keccak256 b)))

  set_uniform-hash : (b : Bytes) → c.set_uniform (padded (keccak256 b)) ≡ some (hash_scalar b)
  set_uniform-hash b = w.uniform (padded (keccak256 b)) (
      omega (
        arith,
        length-append {0} (keccak256 b) (le_bytes 32 0),
        (hash b).length_32,
        length-le_bytes 32 0,
      ))

  uniform_or_zero-hash : (b : Bytes) → uniform_or_zero c keccak256 (keccak256 b) ≡ hash_scalar b
  unfolding uniform_or_zero
  uniform_or_zero-hash b = rw (uniform_or_zero, set_uniform-hash b)

  hs_bytes-hash :
      (s : Bytes) (i : ℕ)
      → hs_bytes c keccak256 s i ≡ ok (c.scalar_bytes (hash_scalar (s ++ encode_varint i)))
  unfolding hs_bytes
  hs_bytes-hash s i = rw (hs_bytes, set_uniform-hash (s ++ encode_varint i))

  set_canonical-amount :
      (amount : ℕ)
      → amount < 2 ^ 64
      → c.set_canonical (le_bytes 8 amount ++ le_bytes 24 0) ≡ some (w.of_nat amount)
  set_canonical-amount amount h =
      ap c.set_canonical (
        le_bytes-more 8 24 amount (omega arith)
        ∙ ap (le_bytes 32) (sym (mod-eq_of_lt {m = group_order} (omega arith))))
      ∙ w.reduced amount

  -- A commitment x G + a H.
  abbrev pub commitment : Scalar → ℕ → Bytes
  commitment x amount =
      c.point_bytes
        (c.point_add (c.scalar_base_mult x) (c.scalar_mult (w.of_nat amount) (get_h c keccak256)))

  pub calc_commitment-mask :
      (amount : ℕ) (x : Scalar)
      → amount < 2 ^ 64
      → calc_commitment c keccak256 amount (c.scalar_bytes x) ≡ ok (commitment x amount)
  unfolding calc_commitment
  calc_commitment-mask amount x h =
      rw (calc_commitment, w.canonical x, set_canonical-amount amount h)

  -- The blinding factor of an output.
  abbrev pub blinding : Bytes → ℕ → Scalar
  blinding s i =
      hash_scalar (codes "commitment_mask" ++ c.scalar_bytes (hash_scalar (s ++ encode_varint i)))

  calc_out_pk-blinding :
      (s : Bytes) (i amount : ℕ)
      → amount < 2 ^ 64
      → calc_out_pk c keccak256 s i amount ≡ ok (blinding s i, commitment (blinding s i) amount)
  unfolding calc_out_pk
  calc_out_pk-blinding s i amount h = rw (
    hs_bytes-hash s i,
    set_uniform-hash
        (codes "commitment_mask" ++ c.scalar_bytes (hash_scalar (s ++ encode_varint i))),
    calc_commitment-mask amount (blinding s i) h,
  )

  generate_bulletproof_plus_mask-blinding :
      (r v : Scalar) (i : ℕ)
      → generate_bulletproof_plus_mask c keccak256 (base_bytes c w r) (c.scalar_bytes v) i
        ≡ ok (c.scalar_bytes (blinding (shared c w v r) i))
  unfolding generate_bulletproof_plus_mask
  generate_bulletproof_plus_mask-blinding r v i = rw (
    shared_secret-base c w r v,
    uniform_or_zero-hash (shared c w v r ++ encode_varint i),
    uniform_or_zero-hash (
        codes "commitment_mask"
        ++ c.scalar_bytes (hash_scalar (shared c w v r ++ encode_varint i))),
  )

  pub receiver_view_tag-derive_view_tag :
      (r v : Scalar) (i : ℕ)
      → receiver_view_tag c keccak256 (base_bytes c w r) (c.scalar_bytes v) i
        ≡ derive_view_tag c keccak256 (shared c w v r) i
  unfolding receiver_view_tag derive_view_tag
  receiver_view_tag-derive_view_tag r v i = rw (
    is_n 32 (base_bytes c w r) (w.point_32 (c.scalar_base_mult r)),
    is_n 32 (c.scalar_bytes v) (w.scalar_32 v),
    shared_secret-base c w r v,
  )

  decode_rct_amount-base :
      (r v : Scalar) (i : ℕ) (enc : Bytes)
      → length enc ≡ 8
      → decode_rct_amount c keccak256 (base_bytes c w r) (c.scalar_bytes v) i enc
        ≡ amount_loop 8 0 0 enc (
            keccak256
              (codes "amount" ++ c.scalar_bytes (hash_scalar (shared c w v r ++ encode_varint i))))
  unfolding decode_rct_amount
  decode_rct_amount-base r v i enc l = rw (
    is_n 8 enc l,
    w.decodable (c.scalar_base_mult r),
    w.canonical v,
    w.reduced 8,
    w.mult-base (c.multiply (w.of_nat 8) v) r,
    w.mul_assoc (w.of_nat 8) v r,
    hs_bytes-hash (shared c w v r) i,
  )

  -- What a sender computes for the output `i` from the shared secret and the amount: the view tag,
  -- the encrypted amount, and the blinding factor with the commitment. The receiver, with the
  -- transaction's public key and the view secret, computes the same view tag, decodes the same
  -- amount, and generates the mask that is the blinding factor and opens the commitment.
  pub received :
      (r v : Scalar) (i amount : ℕ)
      → amount < 2 ^ 64
      → (enc : Bytes) × (x : Scalar) × (out_pk : Bytes) × (encrypt_rct_amount c keccak256
            (shared c w v r)
            i
            amount
          ≡ ok enc)
        × (calc_out_pk c keccak256 (shared c w v r) i amount ≡ ok (x, out_pk))
        × (receiver_view_tag c keccak256 (base_bytes c w r) (c.scalar_bytes v) i
            ≡ derive_view_tag c keccak256 (shared c w v r) i)
        × (decode_rct_amount c keccak256 (base_bytes c w r) (c.scalar_bytes v) i enc ≡ ok amount)
        × (generate_bulletproof_plus_mask c keccak256 (base_bytes c w r) (c.scalar_bytes v) i
            ≡ ok (c.scalar_bytes x))
        × (calc_commitment c keccak256 amount (c.scalar_bytes x) ≡ ok out_pk)
  unfolding encrypt_rct_amount
  received r v i amount h =
      let s = shared c w v r in
      let hidden = codes "amount" ++ c.scalar_bytes (hash_scalar (s ++ encode_varint i)) in
      let (enc, e, l, _) =
        xor_bytes_twice 8 (le_bytes 8 amount) (keccak256 hidden) (length-le_bytes 8 amount)
          (omega (arith, (hash hidden).length_32)) in
      (
        enc,
        blinding s i,
        commitment (blinding s i) amount,
        rw (hs_bytes-hash s i) e,
        calc_out_pk-blinding s i amount h,
        receiver_view_tag-derive_view_tag r v i,
        decode_rct_amount-base r v i enc l
            ∙ amount_loop-value 8 0 0 (le_bytes 8 amount) enc (keccak256 hidden) (omega arith)
                (le_bytes-IsBytes 8 amount) (length-le_bytes 8 amount) e
            ∙ ap ok (omega (arith, le_value-le_bytes 8 amount (omega arith))),
        generate_bulletproof_plus_mask-blinding r v i,
        calc_commitment-mask amount (blinding s i) h,
      )
