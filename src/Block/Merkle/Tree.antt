-- ===== src/Block/Merkle/Tree.antt =====
-- A perfect tree by recursion from the root, and that one level of pairs can be taken off its leaves.
use native.Mathlib.Nat.{pow-suc}
use go_monero.Base.{
  ℕ, zero, suc, ◌+◌, ◌^◌, ◌≡◌, refl, sym, ap, ◌∙◌, List, [], ◌∷◌, ◌++◌, length, take, drop, arith,
  length-take, length-drop,
}
use go_monero.Base.Bytes.{Bytes}

-- The first leaf, for a tree of no level.
abbrev pub first : List Bytes → Bytes
first [] = []
first (x ∷ xs) = x

module _ (keccak256 : Bytes → Bytes) where
  unfoldable pub root : ℕ → List Bytes → Bytes
  root zero xs = first xs
  root (suc k) xs = keccak256 (root k (take (2 ^ k) xs) ++ root k (drop (2 ^ k) xs))

  unfoldable pub pairs : List Bytes → List Bytes
  pairs [] = []
  pairs (x ∷ []) = []
  pairs (x ∷ y ∷ xs) = keccak256 (x ++ y) ∷ pairs xs

  two_more : (m : ℕ) → suc m + suc m ≡ suc (suc (m + m))
  two_more m = omega arith

  take-pairs : (m : ℕ) (xs : List Bytes) → pairs (take (m + m) xs) ≡ take m (pairs xs)
  unfolding pairs
  take-pairs zero xs = refl
  take-pairs (suc m) [] = ap (λ (t : ℕ). pairs (take {A = Bytes} t [])) (two_more m)
  take-pairs (suc m) (x ∷ []) = ap (λ (t : ℕ). pairs (take t (x ∷ []))) (two_more m)
  take-pairs (suc m) (x ∷ y ∷ xs) =
      ap (λ (t : ℕ). pairs (take t (x ∷ y ∷ xs))) (two_more m)
      ∙ ap (◌∷◌ (keccak256 (x ++ y))) (take-pairs m xs)

  drop-pairs : (m : ℕ) (xs : List Bytes) → pairs (drop (m + m) xs) ≡ drop m (pairs xs)
  unfolding pairs
  drop-pairs zero xs = refl
  drop-pairs (suc m) [] = ap (λ (t : ℕ). pairs (drop {A = Bytes} t [])) (two_more m)
  drop-pairs (suc m) (x ∷ []) = ap (λ (t : ℕ). pairs (drop t (x ∷ []))) (two_more m)
  drop-pairs (suc m) (x ∷ y ∷ xs) =
      ap (λ (t : ℕ). pairs (drop t (x ∷ y ∷ xs))) (two_more m) ∙ drop-pairs m xs

  pub length-pairs : (m : ℕ) (xs : List Bytes) → length xs ≡ m + m → length (pairs xs) ≡ m
  unfolding pairs
  length-pairs zero [] h = refl
  length-pairs zero (x ∷ xs) h = absurd (omega arith)
  length-pairs (suc m) [] h = absurd (omega arith)
  length-pairs (suc m) (x ∷ []) h = absurd (omega arith)
  length-pairs (suc m) (x ∷ y ∷ xs) h = ap suc (length-pairs m xs (omega arith))

  pow_double : (k : ℕ) → 2 ^ suc k ≡ 2 ^ k + 2 ^ k
  pow_double k = omega (arith, pow-suc 2 k)

  -- The leaves of a tree, hashed in pairs, are those of the tree above them.
  pub root-pairs :
      (k : ℕ) (xs : List Bytes) → length xs ≡ 2 ^ suc k → root k (pairs xs) ≡ root (suc k) xs
  unfolding root pairs
  root-pairs zero [] h = absurd (omega arith)
  root-pairs zero (x ∷ []) h = absurd (omega arith)
  root-pairs zero (x ∷ y ∷ xs) h = refl
  root-pairs (suc k) xs h =
      let half : 2 ^ suc k ≡ 2 ^ k + 2 ^ k = pow_double k in
      let front : root k (take (2 ^ k) (pairs xs)) ≡ root (suc k) (take (2 ^ suc k) xs) =
        ap (root k) (sym (take-pairs (2 ^ k) xs))
        ∙ (ap (λ (t : ℕ). root k (pairs (take t xs))) (sym half)
            ∙ root-pairs k (take (2 ^ suc k) xs)
                (omega (arith, length-take (2 ^ suc k) xs, pow_double (suc k)))) in
      let back : root k (drop (2 ^ k) (pairs xs)) ≡ root (suc k) (drop (2 ^ suc k) xs) =
        ap (root k) (sym (drop-pairs (2 ^ k) xs))
        ∙ (ap (λ (t : ℕ). root k (pairs (drop t xs))) (sym half)
            ∙ root-pairs k (drop (2 ^ suc k) xs)
                (omega (arith, length-drop (2 ^ suc k) xs, pow_double (suc k)))) in
      rw (front, back) refl
