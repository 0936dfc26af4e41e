-- ===== src/Ring/Tests.antt =====
-- Three indices as offsets and back.
use go_monero.Base.{ℕ, ◌≡◌, refl, List, [], ◌∷◌, drop, arith, some, ok, err}
use go_monero.Ring.{
  duplicate_index, build_key_offsets, sort, has_duplicate, offsets_of, differences, absolute,
  order_indx,
}
use go_monero.Ring.Offsets.{
  IsIncreasing, count, absolute-build_key_offsets, order_indx-build_key_offsets,
}

three_built : build_key_offsets (30 ∷ 10 ∷ 25 ∷ []) ≡ ok (10 ∷ 15 ∷ 5 ∷ [])
unfolding build_key_offsets sort has_duplicate offsets_of differences
three_built = refl

twice_refused : build_key_offsets (7 ∷ 3 ∷ 7 ∷ []) ≡ err duplicate_index
unfolding build_key_offsets sort has_duplicate
twice_refused = refl

absolute-build_key_offsets_example :
    IsIncreasing (absolute (10 ∷ 15 ∷ 5 ∷ []))
    × ((a : ℕ) → count a (absolute (10 ∷ 15 ∷ 5 ∷ [])) ≡ count a (30 ∷ 10 ∷ 25 ∷ []))
absolute-build_key_offsets_example =
    absolute-build_key_offsets (30 ∷ 10 ∷ 25 ∷ []) (10 ∷ 15 ∷ 5 ∷ [])
      (omega arith, (omega arith, (omega arith, tt))) three_built

order_indx-build_key_offsets_example :
    (i : ℕ) × (rest : List ℕ) × (order_indx 25 (absolute (10 ∷ 15 ∷ 5 ∷ [])) ≡ some i)
    × (drop i (absolute (10 ∷ 15 ∷ 5 ∷ [])) ≡ 25 ∷ rest)
unfolding count
order_indx-build_key_offsets_example =
    order_indx-build_key_offsets 25 (30 ∷ 10 ∷ 25 ∷ []) (10 ∷ 15 ∷ 5 ∷ [])
      (omega arith, (omega arith, (omega arith, tt))) three_built (omega arith)
