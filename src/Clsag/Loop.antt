-- ===== src/Clsag/Loop.antt =====
-- The loop of ClsagGen: it goes round the ring once, from the member behind the signer's to the
-- signer's, and keeps the challenge at the index 0.
use native.Mathlib.Nat.{mod-eq_of_lt, mod_self}
use go_monero.Base.{
  ℕ, suc, ◌+◌, ◌%◌, ◌<◌, ◌⊎◌, inl, inr, ◌==◌, ◌≡◌, refl, ap, sym, ◌∙◌, false, List, [], ◌∷◌, ◌++◌,
  map, length, length-append, append_assoc, append-nil, ◌≤◌, arith, Result, ok, if◌then◌else◌,
}
use go_monero.Base.Bytes.{Bytes}
use go_monero.Curve.{Curve, IsCurve}
use go_monero.Clsag.{ClsagError, Signing, index, set, clsag_loop}
use go_monero.Clsag.Verify.{Members, keys_of, masks_of, walk}

pub index-append {ℓ} :
    {A : Type ℓ} (xs ys : List A) (y : A) → index (xs ++ (y ∷ ys)) (length xs) ≡ ok y
unfolding index
index-append [] ys y = refl
index-append (x ∷ xs) ys y = index-append xs ys y

pub set-append {ℓ} :
    {A : Type ℓ} (xs ys : List A) (y v : A) → set (xs ++ (y ∷ ys)) (length xs) v ≡ xs ++ (v ∷ ys)
unfolding set
set-append [] ys y v = refl
set-append (x ∷ xs) ys y v = ap (◌∷◌ x) (set-append xs ys y v)

map-append_cons {ℓ κ} :
    {A : Type ℓ} {B : Type κ} (f : A → B) (xs ys : List A) (y : A)
    → map f (xs ++ (y ∷ ys)) ≡ map f xs ++ (f y ∷ map f ys)
map-append_cons f [] ys y = refl
map-append_cons f (x ∷ xs) ys y = ap (◌∷◌ (f x)) (map-append_cons f xs ys y)

pub length-map {ℓ κ} :
    {A : Type ℓ} {B : Type κ} (f : A → B) (xs : List A) → length (map f xs) ≡ length xs
length-map f [] = refl
length-map f (x ∷ xs) = ap suc (length-map f xs)

pub index-map {ℓ κ} :
    {A : Type ℓ} {B : Type κ} (f : A → B) (xs ys : List A) (y : A)
    → index (map f (xs ++ (y ∷ ys))) (length xs) ≡ ok (f y)
index-map f xs ys y =
    ap (λ l. index l (length xs)) (map-append_cons f xs ys y)
    ∙ ap (index (map f xs ++ (f y ∷ map f ys))) (sym (length-map f xs))
    ∙ index-append (map f xs) (map f ys) (f y)

ne : (a b : ℕ) → (a < b) ⊎ (b < a) → (a == b) ≡ false
ne a b (inl h) = ground arith
ne a b (inr h) = ground arith

pub length-snoc {κ} : {A : Type κ} (xs : List A) (x : A) → length (xs ++ x ∷ []) ≡ length xs + 1
length-snoc xs x = length-append xs (x ∷ [])

pub kept : (a n : ℕ) (x y : Bytes) → a + 1 < n → (if (a + 1) % n == 0 then x else y) ≡ y
kept a n x y h = rw (mod-eq_of_lt h) (rw (ne (a + 1) 0 (inr (omega arith))))

module _ (c : Curve) (w : IsCurve c) (draw : ℕ → Curve.Scalar c)
    (round : Curve.Point c × Curve.Point c → Curve.Scalar c → Curve.Scalar c → Curve.Scalar c) where
  open c use {Scalar, Point}

  -- What the signer draws for these members, the `k`-th random scalar first.
  unfoldable pub responses : Members c → ℕ → List Bytes
  responses [] k = []
  responses (m ∷ ms) k = c.scalar_bytes (draw k) ∷ responses ms (suc k)

  -- The challenge behind these members.
  unfoldable pub run : Members c → ℕ → Scalar → Scalar
  run [] k challenge = challenge
  run (m ∷ ms) k challenge = run ms (suc k) (round m (draw k) challenge)

  pub length-responses : (ms : Members c) (k : ℕ) → length (responses ms k) ≡ length ms
  unfolding responses
  length-responses [] k = refl
  length-responses (m ∷ ms) k = ap suc (length-responses ms (suc k))

  -- A verifier that comes to these members goes the same way.
  pub walk-responses :
      (ms rest : Members c) (ss : List Bytes) (k : ℕ) (challenge : Scalar)
      → walk c round (ms ++ rest) (responses ms k ++ ss) challenge
        ≡ walk c round rest ss (run ms k challenge)
  unfolding walk responses run
  walk-responses [] rest ss k challenge = refl
  walk-responses (m ∷ ms) rest ss k challenge =
      rw (walk, w.canonical (draw k))
        (walk-responses ms rest ss (suc k) (round m (draw k) challenge))

  module _ (next : Bytes → Bytes → Bytes → Bytes → Result ClsagError Bytes)
      (next_lem : (p q : Point) (s challenge : Scalar)
        → next (c.point_bytes p) (c.point_bytes q) (c.scalar_bytes s) (c.scalar_bytes challenge)
          ≡ ok (c.scalar_bytes (round (p, q) s challenge)))
      (ring : Members c) (l : ℕ) where
    -- The loop, from an index, a challenge, the scalars drawn, the responses and the first challenge.
    abbrev pub loop : ℕ → ℕ → Scalar → ℕ → List Bytes → Bytes → Result ClsagError Signing
    loop fuel i challenge k s c1 =
        clsag_loop (λ j. c.scalar_bytes (draw j)) next fuel (keys_of c ring) (masks_of c ring) l
          (record { at = i; challenge = c.scalar_bytes challenge; drawn = k; s = s; c1 = c1 })

    key_at :
        (front back : Members c) (m : Point × Point)
        → ring ≡ front ++ (m ∷ back)
        → index (keys_of c ring) (length front) ≡ ok (c.point_bytes m.0)
    key_at front back m e =
        ap (λ (r : Members c). index (keys_of c r) (length front)) e
        ∙ index-map (λ x. c.point_bytes x.0) front back m

    mask_at :
        (front back : Members c) (m : Point × Point)
        → ring ≡ front ++ (m ∷ back)
        → index (masks_of c ring) (length front) ≡ ok (c.point_bytes m.1)
    mask_at front back m e =
        ap (λ (r : Members c). index (masks_of c r) (length front)) e
        ∙ index-map (λ x. c.point_bytes x.1) front back m

    -- One round, at a member that is not the signer's.
    loop_step :
        (front back : Members c) (m : Point × Point) (fuel : ℕ) (challenge : Scalar) (k : ℕ)
        (s : List Bytes) (c1 : Bytes)
        → ring ≡ front ++ (m ∷ back)
        → (length front < l) ⊎ (l < length front)
        → loop (suc fuel) (length front) challenge k s c1
          ≡ loop fuel
              ((length front + 1) % length ring)
              (round m (draw k) challenge)
              (suc k)
              (set s (length front) (c.scalar_bytes (draw k)))
              (if (length front + 1) % length ring == 0
                then c.scalar_bytes (round m (draw k) challenge)
                else c1)
    unfolding clsag_loop
    loop_step front back m fuel challenge k s c1 e h = rw (
      clsag_loop,
      ne (length front) l h,
      key_at front back m e,
      mask_at front back m e,
      next_lem m.0 m.1 (draw k) challenge,
      length-map (λ x. c.point_bytes x.0) ring,
    )

    -- One round more for each of these members.
    abbrev pub rounds : Members c → ℕ → ℕ
    rounds [] fuel = fuel
    rounds (m ∷ ms) fuel = suc (rounds ms fuel)

    pub loop_eq :
        (fuel : ℕ) (challenge : Scalar) {i i' k k' : ℕ} {s s' : List Bytes} {c1 c1' : Bytes}
        → i ≡ i'
        → k ≡ k'
        → s ≡ s'
        → c1 ≡ c1'
        → loop fuel i challenge k s c1 ≡ loop fuel i' challenge k' s' c1'
    loop_eq fuel challenge a b d e = cc

    written :
        (front : Members c) (sf after : List Bytes) (o v : Bytes)
        → length sf ≡ length front
        → set (sf ++ (o ∷ after)) (length front) v ≡ (sf ++ v ∷ []) ++ after
    written front sf after o v h =
        ap (λ n. set (sf ++ (o ∷ after)) n v) (sym h)
        ∙ set-append sf after o v
        ∙ sym (append_assoc sf (v ∷ []) after)

    -- Members in front of the signer's.
    pub loop-front :
        (front ms back : Members c) (z : Point × Point) (fuel : ℕ) (challenge : Scalar) (k : ℕ)
        (sf so after : List Bytes) (c1 : Bytes)
        → ring ≡ front ++ (ms ++ (z ∷ back))
        → length sf ≡ length front
        → length so ≡ length ms
        → length front + length ms ≤ l
        → loop (rounds ms fuel) (length front) challenge k (sf ++ (so ++ after)) c1
          ≡ loop fuel
              (length front + length ms)
              (run ms k challenge)
              (k + length ms)
              (sf ++ (responses ms k ++ after))
              c1
    unfolding run responses
    loop-front front [] back z fuel challenge k sf [] after c1 e h j b =
        loop_eq fuel challenge (omega arith) (omega arith) refl refl
    loop-front front [] back z fuel challenge k sf (o ∷ so) after c1 e h j b = absurd (omega arith)
    loop-front front (m ∷ ms) back z fuel challenge k sf [] after c1 e h j b = absurd (omega arith)
    loop-front front (m ∷ ms) back z fuel challenge k sf (o ∷ so) after c1 e h j b =
        let v = c.scalar_bytes (draw k) in
        let more : length front + 1 < length ring = omega (
          arith,
          ap length e,
          length-append front (m ∷ (ms ++ (z ∷ back))),
          length-append ms (z ∷ back),
        ) in
        loop_step front (ms ++ (z ∷ back)) m (rounds ms fuel) challenge k
          (sf ++ (o ∷ (so ++ after))) c1 e (inl (omega arith))
        ∙ loop_eq (rounds ms fuel) (round m (draw k) challenge)
            (mod-eq_of_lt more ∙ sym (length-snoc front m)) refl
            (written front sf (so ++ after) o v h) (kept (length front) (length ring) _ c1 more)
        ∙ loop-front (front ++ m ∷ []) ms back z fuel (round m (draw k) challenge) (suc k)
            (sf ++ v ∷ []) so after c1 (e ∙ sym (append_assoc front (m ∷ []) (ms ++ (z ∷ back))))
            (length-snoc sf v ∙ ap (λ n. n + 1) h ∙ sym (length-snoc front m)) (omega arith)
            (omega (arith, length-snoc front m))
        ∙ loop_eq fuel (run ms (suc k) (round m (draw k) challenge))
            (omega (arith, length-snoc front m)) (omega arith)
            (append_assoc sf (v ∷ []) (responses ms (suc k) ++ after)) refl

    -- Members behind the signer's: the challenge behind the last is the first of the signature.
    pub loop-back :
        (front ms : Members c) (m : Point × Point) (fuel : ℕ) (challenge : Scalar) (k : ℕ)
        (sf so : List Bytes) (o c1 : Bytes)
        → ring ≡ front ++ (m ∷ ms)
        → length sf ≡ length front
        → length so ≡ length ms
        → l < length front
        → loop (rounds (m ∷ ms) fuel) (length front) challenge k (sf ++ (o ∷ so)) c1
          ≡ loop fuel 0
              (run (m ∷ ms) k challenge)
              (k + length (m ∷ ms))
              (sf ++ responses (m ∷ ms) k)
              (c.scalar_bytes (run (m ∷ ms) k challenge))
    unfolding run responses
    loop-back front [] m fuel challenge k sf [] o c1 e h j b =
        let v = c.scalar_bytes (draw k) in
        let last : (length front + 1) % length ring ≡ 0 =
          ap (λ n. n % length ring) {y = length ring}
            (omega (arith, ap length e, length-append front (m ∷ [])))
          ∙ mod_self (length ring) in
        loop_step front [] m fuel challenge k (sf ++ o ∷ []) c1 e (inr b)
        ∙ loop_eq fuel (round m (draw k) challenge) last (omega arith)
            (written front sf [] o v h ∙ append-nil (sf ++ v ∷ [])) (rw last)
    loop-back front [] m fuel challenge k sf (p ∷ so) o c1 e h j b = absurd (omega arith)
    loop-back front (m' ∷ ms) m fuel challenge k sf [] o c1 e h j b = absurd (omega arith)
    loop-back front (m' ∷ ms) m fuel challenge k sf (p ∷ so) o c1 e h j b =
        let v = c.scalar_bytes (draw k) in
        let more : length front + 1 < length ring =
          omega (arith, ap length e, length-append front (m ∷ m' ∷ ms)) in
        loop_step front (m' ∷ ms) m (rounds (m' ∷ ms) fuel) challenge k (sf ++ (o ∷ (p ∷ so))) c1 e
          (inr b)
        ∙ loop_eq (rounds (m' ∷ ms) fuel) (round m (draw k) challenge)
            (mod-eq_of_lt more ∙ sym (length-snoc front m)) refl (written front sf (p ∷ so) o v h)
            (kept (length front) (length ring) _ c1 more)
        ∙ loop-back (front ++ m ∷ []) ms m' fuel (round m (draw k) challenge) (suc k) (sf ++ v ∷ [])
            so p c1 (e ∙ sym (append_assoc front (m ∷ []) (m' ∷ ms)))
            (length-snoc sf v ∙ ap (λ n. n + 1) h ∙ sym (length-snoc front m)) (omega arith)
            (omega (arith, length-snoc front m))
        ∙ loop_eq fuel (run (m' ∷ ms) (suc k) (round m (draw k) challenge)) refl (omega arith)
            (append_assoc sf (v ∷ []) (responses (m' ∷ ms) (suc k))) refl
