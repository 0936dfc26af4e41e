-- ===== src/Clsag/Signed.antt =====
-- The signature that ClsagGen returns, and that its rounds close.
use go_monero.Base.{
  ℕ, ◌+◌, ◌==◌, ◌≡◌, refl, ap, sym, ◌∙◌, true, some, List, [], ◌∷◌, ◌++◌, length, append-nil,
  length-append, ltb, lt→ltb, arith, Result, ok,
}
use go_monero.Base.Bytes.{Bytes, codes, le_bytes}
use go_monero.Curve.{Curve, IsCurve}
use go_monero.Secret.{canonical_or_zero}
use go_monero.Tx.{Clsag}
use go_monero.Clsag.{
  ClsagError, Signing, set, index, tag, aggregate, round_keys, next_challenge, clsag_gen,
}
use go_monero.Clsag.Verify.{
  Members, keys_of, masks_of, walk, hash_scalar, round, hash_to_scalar-hash_scalar,
  next_challenge-round,
}
use go_monero.Clsag.Loop.{
  responses, length-responses, run, walk-responses, index-map, length-map, set-append,
}
use go_monero.Clsag.Around.{ended, clsag_loop-ended}
use go_monero.Clsag.Closing.{
  response, clsag_sign-response, key_mult-scalar_bytes, key_mult-inv_eight, hash_point,
  round-response,
}

module _ (c : Curve) (w : IsCurve c) (keccak256 : Bytes → Bytes) (draw : ℕ → Curve.Scalar c)
    (message c_offset : Bytes) (nonzero : List Bytes) (front back : Members c)
    (p z : Curve.Scalar c) where
  open c use {Scalar, Point}

  -- The ring, with the signer's member between the others.
  abbrev pub ring : Members c
  ring = front ++ ((c.scalar_base_mult p, c.scalar_base_mult z) ∷ back)

  abbrev pub image : Point
  image = c.scalar_mult p (hash_point c w keccak256 p)

  abbrev pub second_image : Point
  second_image = c.scalar_mult z (hash_point c w keccak256 p)

  abbrev pub sent : Point
  sent = c.scalar_mult w.inv_eight second_image

  abbrev pub weight : Bytes → Scalar
  weight domain = hash_scalar c w keccak256 (
      aggregate (tag domain) (keys_of c ring) nonzero (c.point_bytes image) (c.point_bytes sent)
        c_offset)

  abbrev pub mu_p : Scalar
  mu_p = weight (codes "CLSAG_agg_0")

  abbrev pub mu_c : Scalar
  mu_c = weight (codes "CLSAG_agg_1")

  abbrev pub to_hash : Bytes → Bytes → List Bytes
  to_hash = round_keys (keys_of c ring) nonzero c_offset message

  abbrev pub ring_round : Point × Point → Scalar → Scalar → Scalar
  ring_round = round c w keccak256 to_hash mu_p mu_c image second_image

  abbrev pub start : Scalar
  start = hash_scalar c w keccak256 (
      to_hash (c.point_bytes (c.scalar_base_mult (draw 0)))
        (c.point_bytes (c.scalar_mult (draw 0) (hash_point c w keccak256 p))))

  abbrev next : Bytes → Bytes → Bytes → Bytes → Result ClsagError Bytes
  next =
      next_challenge c keccak256 to_hash (c.scalar_bytes mu_p) (c.scalar_bytes mu_c)
        (c.point_bytes image) (c.point_bytes second_image)

  next-round :
      (q r : Point) (s challenge : Scalar)
      → next (c.point_bytes q) (c.point_bytes r) (c.scalar_bytes s) (c.scalar_bytes challenge)
        ≡ ok (c.scalar_bytes (ring_round (q, r) s challenge))
  next-round q r s challenge =
      next_challenge-round c w keccak256 to_hash mu_p mu_c image second_image q r s challenge

  abbrev pub first : Scalar
  first = run c w draw ring_round back 1 start

  abbrev own : Scalar
  own = run c w draw ring_round front (1 + length back) first

  abbrev pub signed : Clsag
  signed = record {
    s =
        responses c w draw ring_round front (1 + length back)
        ++ (c.scalar_bytes (response c w own (draw 0) p z mu_p mu_c)
            ∷ responses c w draw ring_round back 1);
    c1 = c.scalar_bytes first;
    d = c.point_bytes sent;
  }

  -- The rounds lead from the first challenge back to it.
  pub walk-signed : walk c ring_round ring (Clsag.s signed) first ≡ some first
  unfolding walk
  walk-signed =
      let last = response c w own (draw 0) p z mu_p mu_c in
      walk-responses c w draw ring_round front ((c.scalar_base_mult p, c.scalar_base_mult z) ∷ back)
        (c.scalar_bytes last ∷ responses c w draw ring_round back 1) (1 + length back) first
      ∙ rw (walk, w.canonical last, round-response c w keccak256 to_hash mu_p mu_c own (draw 0) p z)
          (ap
              (λ (ms : Members c).
                walk c ring_round ms (responses c w draw ring_round back 1) start)
              (sym (append-nil back))
            ∙ ap (λ (ss : List Bytes). walk c ring_round (back ++ []) ss start)
                (sym (append-nil (responses c w draw ring_round back 1)))
            ∙ walk-responses c w draw ring_round back [] [] 1 start)

  canonical_or_zero-scalar_bytes : (s : Scalar) → canonical_or_zero c (c.scalar_bytes s) ≡ s
  unfolding canonical_or_zero
  canonical_or_zero-scalar_bytes s = rw (canonical_or_zero, w.canonical s)

  placed :
      set
        (Signing.s (
          ended c w draw ring_round next next-round front
            (c.scalar_base_mult p, c.scalar_base_mult z)
            back
            start))
        (length front)
        (c.scalar_bytes (response c w own (draw 0) p z mu_p mu_c))
      ≡ Clsag.s signed
  placed =
      let before = responses c w draw ring_round front (1 + length back) in
      ap
        (λ (n : ℕ).
          set (before ++ (le_bytes 32 0 ∷ responses c w draw ring_round back 1)) n
            (c.scalar_bytes (response c w own (draw 0) p z mu_p mu_c)))
        (sym (length-responses c w draw ring_round front (1 + length back)))
      ∙ set-append before (responses c w draw ring_round back 1) (le_bytes 32 0) _

  same : (a b : ℕ) → b ≡ a → (a == b) ≡ true
  same a b h = ground arith

  own_key : index (keys_of c ring) (length front) ≡ ok (c.point_bytes (c.scalar_base_mult p))
  own_key =
      index-map (λ x. c.point_bytes x.0) front back (c.scalar_base_mult p, c.scalar_base_mult z)

  in_ring : ltb (length front) (length ring) ≡ true
  in_ring =
      lt→ltb _ _
        (omega (arith, length-append front ((c.scalar_base_mult p, c.scalar_base_mult z) ∷ back)))

  pub clsag_gen-signed :
      length nonzero ≡ length ring
      → clsag_gen c keccak256
          (λ j. c.scalar_bytes (draw j))
          message
          (keys_of c ring)
          (c.scalar_bytes p)
          (masks_of c ring)
          (c.scalar_bytes z)
          nonzero
          c_offset
          (length front)
          (c.point_bytes image)
        ≡ ok signed
  unfolding clsag_gen
  clsag_gen-signed h = rw (
    clsag_gen,
    length-map (λ x. c.point_bytes x.0) ring,
    length-map (λ x. c.point_bytes x.1) ring,
    h,
    same (length ring) (length ring) refl,
    in_ring,
    own_key,
    w.ge_to_bytes_lem (hash_point c w keccak256 p),
    key_mult-scalar_bytes c w z (hash_point c w keccak256 p),
    key_mult-inv_eight c w second_image,
    canonical_or_zero-scalar_bytes (draw 0),
    key_mult-scalar_bytes c w (draw 0) (hash_point c w keccak256 p),
    hash_to_scalar-hash_scalar c w keccak256 (
        aggregate (tag (codes "CLSAG_agg_0")) (keys_of c ring) nonzero (c.point_bytes image)
          (c.point_bytes sent) c_offset),
    hash_to_scalar-hash_scalar c w keccak256 (
        aggregate (tag (codes "CLSAG_agg_1")) (keys_of c ring) nonzero (c.point_bytes image)
          (c.point_bytes sent) c_offset),
    hash_to_scalar-hash_scalar c w keccak256 (
        to_hash (c.point_bytes (c.scalar_base_mult (draw 0)))
          (c.point_bytes (c.scalar_mult (draw 0) (hash_point c w keccak256 p)))),
    clsag_loop-ended c w draw ring_round next next-round front
        (c.scalar_base_mult p, c.scalar_base_mult z) back start,
    clsag_sign-response c w own (draw 0) p z mu_p mu_c,
    placed,
  )
