-- ===== src/Ring/Decoys/Chosen.antt =====
-- What SelectDecoys returns: a ring that BuildKeyOffsets and GetMixins take.
use go_monero.Base.{
  ℕ, zero, suc, ◌+◌, ◌-◌, ◌/◌, ◌≤◌, ◌<◌, ◌≡◌, ◌⊎◌, inl, inr, refl, ap, sym, ◌∙◌, Bool, true, false,
  ◌||◌, List, [], ◌∷◌, All, length, drop, arith, ltb, leb, ◌==◌, if◌then◌else◌, if-elim, Bool-cases,
  ==_iff, some, ok,
}
use go_monero.Varint.{IsU64}
use go_monero.Ring.{
  insert, sort, has_duplicate, offsets_of, build_key_offsets, absolute, order_indx,
}
use go_monero.Ring.Offsets.{
  IsIncreasing, count, sort-All, sort-Ascending, count-sort, Ascending-IsIncreasing,
  has_duplicate-count, order_indx-build_key_offsets,
}
use go_monero.Ring.Decoys.{
  contains, jittered, jitter_range, candidate, decoy_loop, select_decoys, max_attempts,
}

contains-count : (g : ℕ) (xs : List ℕ) → contains g xs ≡ false → count g xs ≡ 0
unfolding contains count
contains-count g [] h = refl
contains-count g (x ∷ xs) h = ground (arith, contains-count g xs)

length-insert : (x : ℕ) (ys : List ℕ) → length (insert x ys) ≡ suc (length ys)
unfolding insert
length-insert x [] = refl
length-insert x (y ∷ ys) =
    if-elim (λ (zs : List ℕ). length zs ≡ suc (suc (length ys))) (leb x y) (λ _. refl)
      (λ _. ap suc (length-insert x ys))

length-sort : (xs : List ℕ) → length (sort xs) ≡ length xs
unfolding sort
length-sort [] = refl
length-sort (x ∷ xs) = length-insert x (sort xs) ∙ ap suc (length-sort xs)

sort-single : (xs : List ℕ) → ((a : ℕ) → count a xs ≤ 1) → has_duplicate (sort xs) ≡ false
sort-single xs single = elim (Bool-cases (has_duplicate (sort xs))) [
  | inr h ↦ h
  | inl h ↦
      let (a, twice) = has_duplicate-count (sort xs) h in
      absurd (omega (arith, twice, count-sort a xs, single a))
]

build_key_offsets-single :
    (xs : List ℕ)
    → 0 < length xs
    → has_duplicate (sort xs) ≡ false
    → build_key_offsets xs ≡ ok (offsets_of (sort xs))
unfolding build_key_offsets
build_key_offsets-single [] h e = absurd (omega arith)
build_key_offsets-single (x ∷ xs) h e = rw e

-- The real index once, the others below the bound and each once, and no more than a ring has.
record Chosen (real max : ℕ) (selected : List ℕ) : Type 0 where
  below : All (λ g. (g ≡ real) ⊎ (g < max)) selected
  single : (a : ℕ) → count a selected ≤ 1
  own : count real selected ≡ 1
  small : length selected ≤ 16

count-add : (a g : ℕ) (xs : List ℕ) → contains g xs ≡ false → count a xs ≤ 1 → count a (g ∷ xs) ≤ 1
unfolding count
count-add a g xs fresh h = elim (Bool-cases (g == a)) [
  | inl e ↦
      let same : g ≡ a = (==_iff g a).0 e in
      let none_yet : count a xs ≡ 0 =
        ap (λ (n : ℕ). count n xs) (sym same) ∙ contains-count g xs fresh in
      rw e (omega (arith, none_yet))
  | inr ne ↦ rw ne (omega (arith, h))
]

add-Chosen :
    (real max g : ℕ) (selected : List ℕ)
    → g < max
    → length selected < 16
    → (g == real || contains g selected) ≡ false
    → Chosen real max selected
    → Chosen real max (g ∷ selected)
unfolding count
add-Chosen real max g selected lt room fresh c =
    let (other, new) = or-false (g == real) (contains g selected) fresh in
    record {
      below = (inr lt, c.below);
      single = λ a. count-add a g selected new (c.single a);
      own = rw other (omega (arith, c.own));
      small = omega arith;
    }
  where
    or-false : (x y : Bool) → (x || y) ≡ false → (x ≡ false) × (y ≡ false)
    or-false true y h = cc
    or-false false y h = (refl, h)

bounded_all :
    (real max : ℕ) (xs : List ℕ)
    → IsU64 real
    → IsU64 max
    → All (λ g. (g ≡ real) ⊎ (g < max)) xs
    → All IsU64 xs
bounded_all real max [] u v h = tt
bounded_all real max (x ∷ xs) u v (inl e, h) = (omega (arith, e), bounded_all real max xs u v h)
bounded_all real max (x ∷ xs) u v (inr lt, h) = (omega (arith, lt), bounded_all real max xs u v h)

module _ (age : ℕ → ℕ) (int63n : ℕ → ℕ → ℕ) (bounded : (k n : ℕ) → 0 < n → int63n k n < n) where
  candidate-lt : (max k : ℕ) → 0 < max → candidate age int63n max k < max
  unfolding candidate
  candidate-lt max k h =
      if-elim (λ (g : ℕ). g < max) (leb max (age k))
        (λ _.
          if-elim (λ (n : ℕ). int63n k n < max) (ltb (max / 10) 1)
            (λ _. omega (arith, bounded k 1 (omega arith)))
            (λ many. omega (arith, bounded k (max / 10) (ground arith))))
        (λ _.
          if-elim (λ (g : ℕ). g < max)
            (leb max (jittered (max - age k) (int63n k (jitter_range + jitter_range))))
            (λ _. omega arith) (λ small. ground arith))

  decoy_loop-Chosen :
      (left k real max : ℕ) (selected : List ℕ)
      → 0 < max
      → Chosen real max selected
      → Chosen real max (decoy_loop age int63n left k real max selected)
  unfolding decoy_loop
  decoy_loop-Chosen zero k real max selected h c = c
  decoy_loop-Chosen (suc left) k real max selected h c =
      let gi = candidate age int63n max k in
      if-elim (Chosen real max) (ltb (length selected) 16)
        (λ room.
          decoy_loop-Chosen left (suc k) real max
            (if gi == real || contains gi selected then selected else gi ∷ selected) h
            (if-elim (Chosen real max) (gi == real || contains gi selected) (λ _. c)
              (λ fresh.
                add-Chosen real max gi selected (candidate-lt max k h) (ground arith) fresh c)))
        (λ _. c)

  -- What a ring was sorted from.
  selected_lem :
      (real max : ℕ) (ring : List ℕ)
      → select_decoys age int63n real max ≡ ok ring
      → (0 < max)
        × (16 ≤ length (decoy_loop age int63n max_attempts 0 real max (real ∷ [])))
        × (ring ≡ sort (decoy_loop age int63n max_attempts 0 real max (real ∷ [])))
  unfolding select_decoys
  selected_lem real max ring h = (ground arith, ground arith, ground arith)

  start-Chosen : (real max : ℕ) → Chosen real max (real ∷ [])
  unfolding count
  start-Chosen real max = record {
    below = (inl refl, tt);
    single = λ a. ground arith;
    own = ground arith;
    small = omega arith;
  }

  -- For a real index and a bound that are uint64, and a source of random numbers below what is asked
  -- for: where SelectDecoys returns a ring, it has 16 indices in strictly increasing order,
  -- the real one and others below the bound; BuildKeyOffsets takes it, and GetMixins finds the
  -- real index at its place among the indices that it gets from the offsets.
  pub build_key_offsets-select_decoys :
      (real max : ℕ) (ring : List ℕ)
      → IsU64 real
      → IsU64 max
      → select_decoys age int63n real max ≡ ok ring
      → (length ring ≡ 16)
        × IsIncreasing ring
        × All (λ g. (g ≡ real) ⊎ (g < max)) ring
        × (offsets : List ℕ) × (build_key_offsets ring ≡ ok offsets)
        × (i : ℕ) × (rest : List ℕ) × (order_indx real (absolute offsets) ≡ some i)
        × (drop i (absolute offsets) ≡ real ∷ rest)
  build_key_offsets-select_decoys real max ring u v h =
      let selected = decoy_loop age int63n max_attempts 0 real max (real ∷ []) in
      let (positive, enough, e) = selected_lem real max ring h in
      let c : Chosen real max selected =
        decoy_loop-Chosen max_attempts 0 real max (real ∷ []) positive (start-Chosen real max) in
      let once : (a : ℕ) → count a (sort selected) ≤ 1 =
        λ a. omega (arith, count-sort a selected, c.single a) in
      let long : length (sort selected) ≡ 16 =
        omega (arith, length-sort selected, enough, c.small) in
      let below = sort-All (λ g. (g ≡ real) ⊎ (g < max)) selected c.below in
      let built =
        build_key_offsets-single (sort selected) (omega (arith, long))
          (sort-single (sort selected) once) in
      let (i, rest, found, at) =
        order_indx-build_key_offsets real (sort selected) (offsets_of (sort (sort selected)))
          (bounded_all real max (sort selected) u v below) built
          (omega (arith, count-sort real selected, c.own)) in
      rw e (
        long,
        Ascending-IsIncreasing (sort selected) (sort-Ascending selected)
            (sort-single selected c.single),
        below,
        offsets_of (sort (sort selected)),
        built,
        i,
        rest,
        found,
        at,
      )
