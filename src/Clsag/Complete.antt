-- ===== src/Clsag/Complete.antt =====
-- A signature of proveRctCLSAGSimple for an input that the signer owns is accepted.
use go_monero.Base.{ℕ, suc, ◌≡◌, refl, ap, sym, ◌∙◌, true, List, [], ◌∷◌, ◌++◌, map, length, ok}
use go_monero.Base.Bytes.{Bytes, bytes_eq_refl}
use go_monero.Curve.{Curve, IsCurve}
use go_monero.Tx.{Clsag}
use go_monero.PseudoOuts.Sums.{add-zero}
use go_monero.Clsag.{Mixin, sub_keys, prove_rct_clsag_simple}
use go_monero.Clsag.Verify.{Members, keys_of, masks_of, less, aggregate_scalar, verify}
use go_monero.Clsag.Loop.{length-map}
use go_monero.Clsag.Closing.{hash_point, sub_keys-point_bytes, eight_of_sent, hash_point-base}
use go_monero.Clsag.Signed.{signed, walk-signed, clsag_gen-signed, first, sent}

module _ (c : Curve) (w : IsCurve c) where
  open c use {Scalar, Point}

  -- The members of a ring, as bytes.
  abbrev pub mixins_of : Members c → List Mixin
  mixins_of ms = map (λ m. record { dest = c.point_bytes m.0; mask = c.point_bytes m.1 }) ms

  dests :
      (ms : Members c) (q : Point)
      → map (λ m. Mixin.dest m) (mixins_of ms) ≡ keys_of c (less c q ms)
  dests [] q = refl
  dests (m ∷ ms) q = ap (◌∷◌ (c.point_bytes m.0)) (dests ms q)

  masks : (ms : Members c) → map (λ m. Mixin.mask m) (mixins_of ms) ≡ masks_of c ms
  masks [] = refl
  masks (m ∷ ms) = ap (◌∷◌ (c.point_bytes m.1)) (masks ms)

  keys-less : (ms : Members c) (q : Point) → keys_of c (less c q ms) ≡ keys_of c ms
  keys-less [] q = refl
  keys-less (m ∷ ms) q = ap (◌∷◌ (c.point_bytes m.0)) (keys-less ms q)

  differences :
      (ms : Members c) (q : Point)
      → map (λ m. sub_keys c (Mixin.mask m) (c.point_bytes q)) (mixins_of ms)
        ≡ masks_of c (less c q ms)
  differences [] q = refl
  differences (m ∷ ms) q = rw (sub_keys-point_bytes c w m.1 q, differences ms q)

  less-append :
      (xs ys : Members c) (m : Point × Point) (q : Point)
      → less c q (xs ++ (m ∷ ys)) ≡ less c q xs ++ ((m.0, c.ge_sub m.1 q) ∷ less c q ys)
  less-append [] ys m q = refl
  less-append (x ∷ xs) ys m q = ap (◌∷◌ (x.0, c.ge_sub x.1 q)) (less-append xs ys m q)

  length-less : (ms : Members c) (q : Point) → length (less c q ms) ≡ length ms
  length-less [] q = refl
  length-less (m ∷ ms) q = ap suc (length-less ms q)

  put_off : (x d : Scalar) → c.add (c.add x d) (c.subtract c.zero d) ≡ x
  put_off x d =
      w.add_assoc x d (c.subtract c.zero d)
      ∙ ap (c.add x) (w.add_comm d (c.subtract c.zero d) ∙ w.subtract-add c.zero d)
      ∙ add-zero c w x

  -- The amounts cancel.
  same_amount : (y b v : Scalar) → c.subtract (c.add y v) (c.add b v) ≡ c.subtract y b
  same_amount y b v =
      let d = c.add b v in
      sym (put_off (c.subtract (c.add y v) d) d)
      ∙ ap (λ (t : Scalar). c.add t (c.subtract c.zero d))
          (w.subtract-add (c.add y v) d
            ∙ ap (λ (t : Scalar). c.add t v) (sym (w.subtract-add y b))
            ∙ w.add_assoc (c.subtract y b) b v)
      ∙ put_off (c.subtract y b) d

  ge_sub-same_amount :
      (y b v : Scalar)
      → c.ge_sub (c.scalar_base_mult (c.add y v)) (c.scalar_base_mult (c.add b v))
        ≡ c.scalar_base_mult (c.subtract y b)
  ge_sub-same_amount y b v =
      w.ge_sub_lem (c.add y v) (c.add b v) ∙ ap c.scalar_base_mult (same_amount y b v)

module _ (c : Curve) (w : IsCurve c) (keccak256 : Bytes → Bytes) where
  open c use {Scalar, Point}

  -- Of a ring with the signer's member between the others: the secret of its key is `p`, its
  -- commitment and the pseudo output hide the same amount `v` behind `y` and `b`.
  module _ (draw : ℕ → Scalar) (message : Bytes) (front back : Members c) (p y b v : Scalar) where
    abbrev pub whole : Members c
    whole = front ++ ((c.scalar_base_mult p, c.scalar_base_mult (c.add y v)) ∷ back)

    abbrev pub pseudo : Point
    pseudo = c.scalar_base_mult (c.add b v)

    abbrev pub key_image : Point
    key_image = c.scalar_mult p (hash_point c w keccak256 p)

    abbrev pub z : Scalar
    z = c.subtract y b

    abbrev pub sig : Clsag
    sig =
        signed c w keccak256 draw message (c.point_bytes pseudo) (masks_of c whole)
          (less c pseudo front) (less c pseudo back) p z

    members :
        less c pseudo whole
        ≡ less c pseudo front ++ ((c.scalar_base_mult p, c.scalar_base_mult z) ∷ less c pseudo back)
    members =
        less-append c w front back (c.scalar_base_mult p, c.scalar_base_mult (c.add y v)) pseudo
        ∙ ap
            (λ (q : Point). less c pseudo front ++ ((c.scalar_base_mult p, q) ∷ less c pseudo back))
            (ge_sub-same_amount c w y b v)

    same_keys :
        keys_of c whole
        ≡ keys_of c (
            less c pseudo front
            ++ ((c.scalar_base_mult p, c.scalar_base_mult z) ∷ less c pseudo back))
    same_keys = sym (keys-less c w whole pseudo) ∙ ap (keys_of c) members

    eight_back :
        c.scalar_mult
          (w.of_nat 8)
          (c.scalar_mult w.inv_eight (c.scalar_mult z (hash_point c w keccak256 p)))
        ≡ c.scalar_mult z (hash_point c w keccak256 p)
    eight_back = let (h, e) = hash_point-base c w keccak256 p in rw e (eight_of_sent c w z h)

    as_long :
        length (masks_of c whole)
        ≡ length (
            less c pseudo front
            ++ ((c.scalar_base_mult p, c.scalar_base_mult z) ∷ less c pseudo back))
    as_long =
        length-map (λ x. c.point_bytes x.1) whole
        ∙ sym (length-less c w whole pseudo)
        ∙ ap (λ (ms : Members c). length ms) members

    proved :
        prove_rct_clsag_simple c keccak256
          (λ j. c.scalar_bytes (draw j))
          message
          (mixins_of c w whole)
          (record { dest = c.scalar_bytes p; mask = c.scalar_bytes y })
          (c.scalar_bytes b)
          (c.point_bytes pseudo)
          (length front)
          (c.point_bytes key_image)
        ≡ ok sig
    unfolding prove_rct_clsag_simple
    proved =
        rw
          (
            dests c w whole pseudo,
            differences c w whole pseudo,
            masks c w whole,
            members,
            w.sc_sub_lem y b,
            sym (length-less c w front pseudo),
          )
          (clsag_gen-signed c w keccak256 draw message (c.point_bytes pseudo) (masks_of c whole)
            (less c pseudo front) (less c pseudo back) p z as_long)

    accepted : verify c w keccak256 message whole pseudo key_image sig ≡ true
    unfolding verify aggregate_scalar
    accepted =
        rw
          (
            verify,
            w.decodable (
                sent c w keccak256 draw message (c.point_bytes pseudo) (masks_of c whole)
                  (less c pseudo front) (less c pseudo back) p z),
            w.canonical (
                first c w keccak256 draw message (c.point_bytes pseudo) (masks_of c whole)
                  (less c pseudo front) (less c pseudo back) p z),
            same_keys,
            members,
            eight_back,
            walk-signed c w keccak256 draw message (c.point_bytes pseudo) (masks_of c whole)
                (less c pseudo front) (less c pseudo back) p z,
          )
          (bytes_eq_refl _)

  -- For a ring with the signer's member at any place, and for any random scalars, proveRctCLSAGSimple
  -- succeeds, given the secrets of the member and of the pseudo output, the index and the key image;
  -- and a verifier that recomputes the challenges of the ring accepts what it returns.
  pub prove_rct_clsag_simple-verify :
      (draw : ℕ → Scalar) (message : Bytes) (front back : Members c) (p y b v : Scalar)
      → (sig : Clsag) × (prove_rct_clsag_simple c keccak256
            (λ j. c.scalar_bytes (draw j))
            message
            (mixins_of c w
              (front ++ ((c.scalar_base_mult p, c.scalar_base_mult (c.add y v)) ∷ back)))
            (record { dest = c.scalar_bytes p; mask = c.scalar_bytes y })
            (c.scalar_bytes b)
            (c.point_bytes (c.scalar_base_mult (c.add b v)))
            (length front)
            (c.point_bytes (c.scalar_mult p (hash_point c w keccak256 p)))
          ≡ ok sig)
        × (verify c w keccak256 message
              (front ++ ((c.scalar_base_mult p, c.scalar_base_mult (c.add y v)) ∷ back))
              (c.scalar_base_mult (c.add b v))
              (c.scalar_mult p (hash_point c w keccak256 p))
              sig
            ≡ true)
  prove_rct_clsag_simple-verify draw message front back p y b v = (
    sig draw message front back p y b v,
    proved draw message front back p y b v,
    accepted draw message front back p y b v,
  )
