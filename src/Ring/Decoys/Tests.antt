-- ===== src/Ring/Decoys/Tests.antt =====
-- A ring of sixteen, from ages that grow by 1000 blocks.
use native.Mathlib.Nat.{mod-lt}
use go_monero.Base.{
  ℕ, ◌+◌, ◌*◌, ◌%◌, ◌<◌, ◌≡◌, ◌⊎◌, refl, List, [], ◌∷◌, All, length, drop, arith, some, ok,
}
use go_monero.Ring.{sort, build_key_offsets, absolute, order_indx}
use go_monero.Ring.Offsets.{IsIncreasing}
use go_monero.Ring.Decoys.{contains, jittered, candidate, decoy_loop, select_decoys}
use go_monero.Ring.Decoys.Chosen.{build_key_offsets-select_decoys}

abbrev ages : ℕ → ℕ
ages k = 1000 * k + 720

abbrev draws : ℕ → ℕ → ℕ
draws k n = k % n

abbrev sixteen : List ℕ
sixteen =
    500 ∷ 985222 ∷ 986221 ∷ 987220 ∷ 988219 ∷ 989218 ∷ 990217 ∷ 991216 ∷ 992215 ∷ 993214 ∷ 994213
    ∷ 995212 ∷ 996211 ∷ 997210 ∷ 998209 ∷ 999208 ∷ []

sixteen_selected : select_decoys ages draws 500 1000000 ≡ ok sixteen
unfolding select_decoys decoy_loop candidate jittered contains sort
sixteen_selected = refl

build_key_offsets-select_decoys_example :
    (length sixteen ≡ 16)
    × IsIncreasing sixteen
    × All (λ (g : ℕ). (g ≡ 500) ⊎ (g < 1000000)) sixteen
    × (offsets : List ℕ) × (build_key_offsets sixteen ≡ ok offsets)
    × (i : ℕ) × (rest : List ℕ) × (order_indx 500 (absolute offsets) ≡ some i)
    × (drop i (absolute offsets) ≡ 500 ∷ rest)
build_key_offsets-select_decoys_example =
    build_key_offsets-select_decoys ages draws (λ k n h. mod-lt k h) 500 1000000 sixteen
      (omega arith) (omega arith) sixteen_selected
