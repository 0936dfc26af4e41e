-- ===== src/Ring.antt =====
-- The members of a ring as indices and as offsets: types/gamma_selector.go, BuildKeyOffsets and the
-- indices of GetMixins.
pub mod Offsets
pub mod Decoys
mod Tests
use go_monero.Base.{
  ℕ, zero, suc, ◌+◌, ◌-◌, ◌%◌, ◌^◌, Bool, true, false, ◌||◌, List, [], ◌∷◌, leb, ◌==◌,
  if◌then◌else◌, Option, none, some, Result, ok, err,
}

pub data OffsetError : Type 0 where
  empty_indices duplicate_index : OffsetError

-- `sort.Slice` by `<`.
unfoldable pub insert : ℕ → List ℕ → List ℕ
insert x [] = x ∷ []
insert x (y ∷ ys) = let behind = insert x ys in if leb x y then x ∷ y ∷ ys else y ∷ behind

unfoldable pub sort : List ℕ → List ℕ
unfolding insert
sort [] = []
sort (x ∷ xs) = insert x (sort xs)

-- `sorted[i] == sorted[i-1]` for some i.
unfoldable pub has_duplicate : List ℕ → Bool
has_duplicate [] = false
has_duplicate (x ∷ []) = false
has_duplicate (x ∷ y ∷ ys) = y == x || has_duplicate (y ∷ ys)

-- `sorted[i] - sorted[i-1]`, on uint64.
unfoldable pub differences : ℕ → List ℕ → List ℕ
differences before [] = []
differences before (x ∷ xs) = ((x + (2 ^ 64 - before)) % 2 ^ 64) ∷ differences x xs

unfoldable pub offsets_of : List ℕ → List ℕ
offsets_of [] = []
offsets_of (x ∷ xs) = x ∷ differences x xs

unfoldable pub build_key_offsets : List ℕ → Result OffsetError (List ℕ)
build_key_offsets [] = err empty_indices
build_key_offsets (i ∷ is) =
    if has_duplicate (sort (i ∷ is)) then err duplicate_index else ok (offsets_of (sort (i ∷ is)))

-- `indxs[i] = indxs[i] + indxs[i-1]`, on uint64.
unfoldable pub sums : ℕ → List ℕ → List ℕ
sums before [] = []
sums before (d ∷ ds) = let here = (d + before) % 2 ^ 64 in here ∷ sums here ds

unfoldable pub absolute : List ℕ → List ℕ
absolute [] = []
absolute (x ∷ ds) = x ∷ sums x ds

-- The position of the input's own index, `none` for the -1 of the source.
unfoldable pub order_indx : ℕ → List ℕ → Option ℕ
order_indx input_indx [] = none
order_indx input_indx (x ∷ xs) =
    let behind = elim (order_indx input_indx xs) as (λ o. Option ℕ) [
      | none ↦ none
      | some i ↦ some (suc i)
    ] in
    if x == input_indx then some 0 else behind
