-- ===== src/Base58/Trim.antt =====
-- The characters of the alphabet are visible.
use go_monero.Base.{ℕ, suc, ◌≡◌, some, [], ◌∷◌, All, arith}
use go_monero.Base.Bytes.{Bytes}
use go_monero.Base.Space.{IsVisible, trim_space, trim_space-visible}
use go_monero.Base58.{monero_base58_alphabet, place, b58_map}

-- A character of the alphabet.
abbrev pub IsBase58Char : ℕ → Type 0
IsBase58Char c = (i : ℕ) × (b58_map c ≡ some i)

place-IsVisible :
    (i c : ℕ) (ds : Bytes) {j : ℕ} → All IsVisible ds → place i c ds ≡ some j → IsVisible c
unfolding place
place-IsVisible i c [] h e = cc
place-IsVisible i c (d ∷ ds) {j} (v, h) e = ground (arith, place-IsVisible (suc i) c ds {j = j} h)

b58_map-IsVisible : (c : ℕ) → IsBase58Char c → IsVisible c
unfolding b58_map
b58_map-IsVisible c (i, e) = place-IsVisible 0 c monero_base58_alphabet (omega arith) e

chars-IsVisible : (s : Bytes) → All IsBase58Char s → All IsVisible s
chars-IsVisible [] h = tt
chars-IsVisible (c ∷ s) (v, h) = (b58_map-IsVisible c v, chars-IsVisible s h)

pub trim_space-chars : (s : Bytes) → All IsBase58Char s → trim_space s ≡ s
trim_space-chars s h = trim_space-visible s (chars-IsVisible s h)
