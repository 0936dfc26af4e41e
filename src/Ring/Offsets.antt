-- ===== src/Ring/Offsets.antt =====
-- GetMixins gets back the indices that BuildKeyOffsets made offsets of, in order.
use go_monero.Base.{
  ℕ, suc, ◌+◌, ◌-◌, ◌%◌, ◌^◌, ◌≤◌, ◌<◌, ◌≡◌, refl, ap, ◌∙◌, Bool, true, false, List, [], ◌∷◌, All,
  arith, leb, ◌==◌, if◌then◌else◌, if-elim, some, drop, Bool-cases, ==_iff, inl, inr, ok, err,
}
use go_monero.Varint.{IsU64}
use go_monero.Ring.{
  duplicate_index, insert, sort, has_duplicate, differences, offsets_of, build_key_offsets, sums,
  absolute, order_indx,
}

-- Strictly above `before`, each the one in front of it.
unfoldable pub Increasing : ℕ → List ℕ → Type 0
Increasing before [] = Unit {0}
Increasing before (x ∷ xs) = (before < x) × Increasing x xs

unfoldable pub IsIncreasing : List ℕ → Type 0
unfolding Increasing
IsIncreasing [] = Unit {0}
IsIncreasing (x ∷ xs) = Increasing x xs

-- How often an index is in a list.
unfoldable pub count : ℕ → List ℕ → ℕ
count a [] = 0
count a (x ∷ xs) = (if x == a then 1 else 0) + count a xs

-- At least `before`, in order.
abbrev pub Ascending : ℕ → List ℕ → Type 0
Ascending before [] = Unit {0}
Ascending before (x ∷ xs) = (before ≤ x) × Ascending x xs

insert-Ascending :
    (x before : ℕ) (ys : List ℕ) → before ≤ x → Ascending before ys → Ascending before (insert x ys)
unfolding insert
insert-Ascending x before [] h a = (h, tt)
insert-Ascending x before (y ∷ ys) h (le, a) =
    if-elim (Ascending before) (leb x y) (λ lt. (h, (ground arith, a)))
      (λ ge. (le, insert-Ascending x y ys (ground arith) a))

pub sort-Ascending : (xs : List ℕ) → Ascending 0 (sort xs)
unfolding sort
sort-Ascending [] = tt
sort-Ascending (x ∷ xs) = insert-Ascending x 0 (sort xs) (omega arith) (sort-Ascending xs)

pub insert-All : (P : ℕ → Type 0) (x : ℕ) (ys : List ℕ) → P x → All P ys → All P (insert x ys)
unfolding insert
insert-All P x [] h a = (h, tt)
insert-All P x (y ∷ ys) h (k, a) =
    if-elim (All P) (leb x y) (λ _. (h, (k, a))) (λ _. (k, insert-All P x ys h a))

pub sort-All : (P : ℕ → Type 0) (xs : List ℕ) → All P xs → All P (sort xs)
unfolding sort
sort-All P [] h = tt
sort-All P (x ∷ xs) (h, a) = insert-All P x (sort xs) h (sort-All P xs a)

count-insert : (a x : ℕ) (ys : List ℕ) → count a (insert x ys) ≡ count a (x ∷ ys)
unfolding insert count
count-insert a x [] = refl
count-insert a x (y ∷ ys) =
    if-elim (λ zs. count a zs ≡ count a (x ∷ y ∷ ys)) (leb x y) (λ _. refl)
      (λ _. omega (arith, count-insert a x ys))

pub count-sort : (a : ℕ) (xs : List ℕ) → count a (sort xs) ≡ count a xs
unfolding sort count
count-sort a [] = refl
count-sort a (x ∷ xs) =
    count-insert a x (sort xs) ∙ ap (λ (t : ℕ). (if x == a then 1 else 0) + t) (count-sort a xs)

-- In order and with no two neighbours equal.
Ascending-Increasing :
    (x : ℕ) (xs : List ℕ) → Ascending x xs → has_duplicate (x ∷ xs) ≡ false → Increasing x xs
unfolding has_duplicate Increasing
Ascending-Increasing x [] a h = tt
Ascending-Increasing x (y ∷ ys) (le, a) h =
    (ground arith, Ascending-Increasing y ys a (ground arith))

sums-differences :
    (x : ℕ) (xs : List ℕ) → IsU64 x → All IsU64 xs → Ascending x xs → sums x (differences x xs) ≡ xs
unfolding sums differences
sums-differences x [] h u a = refl
sums-differences x (y ∷ ys) h (uy, u) (le, a) =
    let here : ((y + (2 ^ 64 - x)) % 2 ^ 64 + x) % 2 ^ 64 ≡ y = omega arith in
    rw here (ap (◌∷◌ y) (sums-differences y ys uy u a))

absolute-offsets_of : (xs : List ℕ) → All IsU64 xs → Ascending 0 xs → absolute (offsets_of xs) ≡ xs
unfolding absolute offsets_of
absolute-offsets_of [] u a = refl
absolute-offsets_of (x ∷ xs) (h, u) (le, a) = ap (◌∷◌ x) (sums-differences x xs h u a)

pub Ascending-IsIncreasing :
    (xs : List ℕ) → Ascending 0 xs → has_duplicate xs ≡ false → IsIncreasing xs
unfolding IsIncreasing
Ascending-IsIncreasing [] a h = tt
Ascending-IsIncreasing (x ∷ xs) (le, a) h = Ascending-Increasing x xs a h

-- A successful run says what it returned.
built :
    (indices offsets : List ℕ)
    → build_key_offsets indices ≡ ok offsets
    → (has_duplicate (sort indices) ≡ false) × (offsets ≡ offsets_of (sort indices))
unfolding build_key_offsets
built [] offsets h = absurd (ground arith)
built (i ∷ is) offsets h = by_duplicate (has_duplicate (sort (i ∷ is))) refl h
  where
    by_duplicate :
        (b : Bool)
        → has_duplicate (sort (i ∷ is)) ≡ b
        → (if b then err duplicate_index else ok (offsets_of (sort (i ∷ is)))) ≡ ok offsets
        → (has_duplicate (sort (i ∷ is)) ≡ false) × (offsets ≡ offsets_of (sort (i ∷ is)))
    by_duplicate true e k = cc
    by_duplicate false e k = (e, cc)

back_to_sorted :
    (indices offsets : List ℕ)
    → All IsU64 indices
    → build_key_offsets indices ≡ ok offsets
    → absolute offsets ≡ sort indices
back_to_sorted indices offsets u h =
    let (_, e) = built indices offsets h in
    ap absolute e
    ∙ absolute-offsets_of (sort indices) (sort-All IsU64 indices u) (sort-Ascending indices)

-- For indices that are uint64: where BuildKeyOffsets returns offsets, GetMixins gets from them the same
-- indices, each as often, in strictly increasing order.
pub absolute-build_key_offsets :
    (indices offsets : List ℕ)
    → All IsU64 indices
    → build_key_offsets indices ≡ ok offsets
    → IsIncreasing (absolute offsets) × ((a : ℕ) → count a (absolute offsets) ≡ count a indices)
absolute-build_key_offsets indices offsets u h =
    let (single, _) = built indices offsets h in
    let e : absolute offsets ≡ sort indices = back_to_sorted indices offsets u h in
    rw e (
      Ascending-IsIncreasing (sort indices) (sort-Ascending indices) single,
      λ a. count-sort a indices,
    )

order_indx-count :
    (a : ℕ) (xs : List ℕ)
    → 0 < count a xs
    → (i : ℕ) × (rest : List ℕ) × (order_indx a xs ≡ some i) × (drop i xs ≡ a ∷ rest)
unfolding order_indx count
order_indx-count a [] h = absurd (omega arith)
order_indx-count a (x ∷ xs) h = elim (Bool-cases (x == a)) [
  | inl e ↦ (0, xs, ground arith, ap (λ (t : ℕ). t ∷ xs) ((==_iff x a).0 e))
  | inr ne ↦
      let (i, rest, found, at) = order_indx-count a xs (ground arith) in
      (suc i, rest, rw found (ground arith), at)
]

-- A member of the ring is found again at its place among the indices that GetMixins sums up.
pub order_indx-build_key_offsets :
    (real : ℕ) (indices offsets : List ℕ)
    → All IsU64 indices
    → build_key_offsets indices ≡ ok offsets
    → 0 < count real indices
    → (i : ℕ) × (rest : List ℕ) × (order_indx real (absolute offsets) ≡ some i)
      × (drop i (absolute offsets) ≡ real ∷ rest)
order_indx-build_key_offsets real indices offsets u h member =
    let (_, same) = absolute-build_key_offsets indices offsets u h in
    order_indx-count real (absolute offsets) (omega (arith, same real))

pub has_duplicate-count : (xs : List ℕ) → has_duplicate xs ≡ true → (a : ℕ) × (2 ≤ count a xs)
unfolding has_duplicate count
has_duplicate-count [] h = absurd (ground arith)
has_duplicate-count (x ∷ []) h = absurd (ground arith)
has_duplicate-count (x ∷ y ∷ ys) h = elim (Bool-cases (y == x)) [
  | inl e ↦ (x, ground arith)
  | inr ne ↦
      let (a, twice) = has_duplicate-count (y ∷ ys) (ground arith) in (a, omega (arith, twice))
]

-- BuildKeyOffsets refuses indices as duplicates only where one of them comes twice.
duplicate_comes_twice :
    (indices : List ℕ)
    → build_key_offsets indices ≡ err duplicate_index
    → (a : ℕ) × (2 ≤ count a indices)
unfolding build_key_offsets
duplicate_comes_twice [] h = absurd (ground arith)
duplicate_comes_twice (i ∷ is) h =
    let (a, twice) = has_duplicate-count (sort (i ∷ is)) (ground arith) in
    (a, omega (arith, twice, count-sort a (i ∷ is)))
