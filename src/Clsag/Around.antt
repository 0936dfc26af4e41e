-- ===== src/Clsag/Around.antt =====
-- The whole loop of ClsagGen, with the fuel that it is given: the length of the ring.
use native.Mathlib.Nat.{mod-eq_of_lt, mod_self}
use go_monero.Base.{
  ℕ, zero, suc, ◌+◌, ◌%◌, ◌==◌, ◌<◌, ◌≡◌, refl, ap, sym, ◌∙◌, true, List, [], ◌∷◌, ◌++◌, length,
  length-append, append_assoc, arith, Result, ok, if◌then◌else◌,
}
use go_monero.Base.Bytes.{Bytes, le_bytes}
use go_monero.Curve.{Curve, IsCurve}
use go_monero.Clsag.{ClsagError, Signing, new_hashes, clsag_loop}
use go_monero.Clsag.Verify.{Members}
use go_monero.Clsag.Loop.{
  responses, run, loop, rounds, loop_eq, kept, loop-front, loop-back, length-snoc,
}

abbrev zeros : Bytes
zeros = le_bytes 32 0

pub length-new_hashes : (n : ℕ) → length (new_hashes n) ≡ n
unfolding new_hashes
length-new_hashes zero = refl
length-new_hashes (suc n) = ap suc (length-new_hashes n)

new_hashes-add : (m n : ℕ) → new_hashes (m + n) ≡ new_hashes m ++ new_hashes n
unfolding new_hashes
new_hashes-add zero n = ap new_hashes {x = zero + n} (omega arith)
new_hashes-add (suc m) n =
    ap new_hashes {x = suc m + n} {y = suc (m + n)} (omega arith)
    ∙ ap (◌∷◌ zeros) (new_hashes-add m n)

module _ (c : Curve) (w : IsCurve c) (draw : ℕ → Curve.Scalar c)
    (round : Curve.Point c × Curve.Point c → Curve.Scalar c → Curve.Scalar c → Curve.Scalar c)
    (next : Bytes → Bytes → Bytes → Bytes → Result ClsagError Bytes)
    (next_lem : (p q : Curve.Point c) (s challenge : Curve.Scalar c)
      → next
          (Curve.point_bytes c p)
          (Curve.point_bytes c q)
          (Curve.scalar_bytes c s)
          (Curve.scalar_bytes c challenge)
        ≡ ok (Curve.scalar_bytes c (round (p, q) s challenge)))
    (front : Members c) (m : Curve.Point c × Curve.Point c) where
  open c use {Scalar, Point}

  rounds-add :
      (ring ms : Members c) (fuel : ℕ)
      → rounds c w draw round next next_lem ring (length front) ms fuel ≡ length ms + fuel
  rounds-add ring [] fuel = omega arith
  rounds-add ring (x ∷ ms) fuel = omega (arith, rounds-add ring ms fuel)

  -- The challenge behind the last member, which the signature keeps, and the signer's own.
  abbrev pub first_of : Members c → Scalar → Scalar
  first_of back start = run c w draw round back 1 start

  abbrev pub own_of : Members c → Scalar → Scalar
  own_of back start = run c w draw round front (1 + length back) (first_of back start)

  -- The state in which the loop ends.
  abbrev pub ended : Members c → Scalar → Signing
  ended back start = record {
    at = length front;
    challenge = c.scalar_bytes (own_of back start);
    drawn = 1 + length back + length front;
    s =
        responses c w draw round front (1 + length back)
        ++ (zeros ∷ responses c w draw round back 1);
    c1 = c.scalar_bytes (first_of back start);
  }

  module _ (back : Members c) where
    -- The loop of this ring.
    abbrev around : ℕ → ℕ → Scalar → ℕ → List Bytes → Bytes → Result ClsagError Signing
    around = loop c w draw round next next_lem (front ++ (m ∷ back)) (length front)

    abbrev fuel_for : Members c → ℕ → ℕ
    fuel_for = rounds c w draw round next next_lem (front ++ (m ∷ back)) (length front)

    around_eq :
        (challenge : Scalar) {f f' i i' : ℕ} {s s' : List Bytes} {c1 c1' : Bytes}
        → f ≡ f'
        → i ≡ i'
        → s ≡ s'
        → c1 ≡ c1'
        → around f i challenge 1 s c1 ≡ around f' i' challenge 1 s' c1'
    around_eq challenge a b d e = cc

    all_new :
        new_hashes (length (front ++ (m ∷ back)))
        ≡ new_hashes (length front) ++ (zeros ∷ new_hashes (length back))
    unfolding new_hashes
    all_new =
        ap new_hashes (length-append front (m ∷ back))
        ∙ new_hashes-add (length front) (suc (length back))

    -- From the index 0 on.
    from_zero :
        (challenge : Scalar) (k : ℕ) (after : List Bytes) (c1 : Bytes)
        → around (fuel_for front 1) 0 challenge k (new_hashes (length front) ++ after) c1
          ≡ ok (record {
            at = length front;
            challenge = c.scalar_bytes (run c w draw round front k challenge);
            drawn = k + length front;
            s = responses c w draw round front k ++ after;
            c1 = c1;
          })
    unfolding clsag_loop
    from_zero challenge k after c1 =
        let ring = front ++ (m ∷ back) in
        let l = length front in
        loop-front c w draw round next next_lem ring l [] front back m 1 challenge k []
          (new_hashes l) after c1 refl refl (length-new_hashes l) (omega arith)
        ∙ loop_eq c w draw round next next_lem ring l 1 (run c w draw round front k challenge)
            {i' = l} (omega arith) refl refl refl
        ∙ rw (clsag_loop, same l)
      where
        same : (n : ℕ) → (n == n) ≡ true
        same n = ground arith

  pub clsag_loop-ended :
      (back : Members c) (start : Scalar)
      → loop c w draw round next next_lem
          (front ++ (m ∷ back))
          (length front)
          (length (front ++ (m ∷ back)))
          ((length front + 1) % length (front ++ (m ∷ back)))
          start
          1
          (new_hashes (length (front ++ (m ∷ back))))
          (if (length front + 1) % length (front ++ (m ∷ back)) == 0
            then c.scalar_bytes start
            else zeros)
        ≡ ok (ended back start)
  unfolding run responses new_hashes
  clsag_loop-ended [] start =
      let last : (length front + 1) % length (front ++ m ∷ []) ≡ 0 =
        ap (λ n. n % length (front ++ m ∷ [])) {y = length (front ++ m ∷ [])}
          (omega (arith, length-append front (m ∷ [])))
        ∙ mod_self (length (front ++ m ∷ [])) in
      around_eq [] start
        (omega (arith, length-append front (m ∷ []), rounds-add (front ++ m ∷ []) front 1)) last
        (all_new []) (rw last)
      ∙ from_zero [] start 1 (zeros ∷ []) (c.scalar_bytes start)
  clsag_loop-ended (b ∷ back) start =
      let ring = front ++ (m ∷ b ∷ back) in
      let more : length front + 1 < length ring =
        omega (arith, length-append front (m ∷ b ∷ back)) in
      around_eq (b ∷ back) start {f' = fuel_for (b ∷ back) (b ∷ back) (fuel_for (b ∷ back) front 1)}
        {i' = length (front ++ m ∷ [])}
        {s' = (new_hashes (length front) ++ zeros ∷ []) ++ (zeros ∷ new_hashes (length back))}
        {c1' = zeros}
        (omega (
          arith,
          length-append front (m ∷ b ∷ back),
          rounds-add ring front 1,
          rounds-add ring back (fuel_for (b ∷ back) front 1),
        ))
        (mod-eq_of_lt more ∙ sym (length-snoc front m))
        (all_new (b ∷ back)
          ∙ sym (
              append_assoc (new_hashes (length front)) (zeros ∷ [])
                (zeros ∷ new_hashes (length back))))
        (kept (length front) (length ring) (c.scalar_bytes start) zeros more)
      ∙ loop-back c w draw round next next_lem ring (length front) (front ++ m ∷ []) back b
          (fuel_for (b ∷ back) front 1) start 1 (new_hashes (length front) ++ zeros ∷ [])
          (new_hashes (length back)) zeros zeros (sym (append_assoc front (m ∷ []) (b ∷ back)))
          (length-snoc (new_hashes (length front)) zeros
            ∙ ap (λ n. n + 1) (length-new_hashes (length front))
            ∙ sym (length-snoc front m))
          (length-new_hashes (length back)) (omega (arith, length-snoc front m))
      ∙ ap
          (λ s.
            around (b ∷ back) (fuel_for (b ∷ back) front 1) 0 (first_of (b ∷ back) start)
              (1 + length (b ∷ back)) s (c.scalar_bytes (first_of (b ∷ back) start)))
          (append_assoc (new_hashes (length front)) (zeros ∷ [])
            (responses c w draw round (b ∷ back) 1))
      ∙ from_zero (b ∷ back) (first_of (b ∷ back) start) (1 + length (b ∷ back))
          (zeros ∷ responses c w draw round (b ∷ back) 1)
          (c.scalar_bytes (first_of (b ∷ back) start))
