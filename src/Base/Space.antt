-- ===== src/Base/Space.antt =====
-- strings.TrimSpace: white space is that of Unicode, in UTF-8.
use mathlib.Core.Path.{subst}
use mathlib.Core.List.{reverse, reverse-reverse, reverse-cons}
use go_monero.Base.{
  ℕ, zero, suc, ◌≤◌, ◌<◌, ◌≡◌, refl, Option, none, some, List, [], ◌∷◌, map, length, All,
  All-append, sym, arith, ◌==◌, if◌then◌else◌, ◌⊎◌,
}
use go_monero.Base.Bytes.{Bytes}

-- The characters of the category, each as its bytes.
unfoldable pub white_space : List Bytes
white_space =
    (0x20 ∷ [])
    ∷ (0x09 ∷ [])
    ∷ (0x0A ∷ [])
    ∷ (0x0B ∷ [])
    ∷ (0x0C ∷ [])
    ∷ (0x0D ∷ [])
    ∷ (0xC2 ∷ 0x85 ∷ [])
    ∷ (0xC2 ∷ 0xA0 ∷ [])
    ∷ (0xE1 ∷ 0x9A ∷ 0x80 ∷ [])
    ∷ (0xE2 ∷ 0x80 ∷ 0x80 ∷ [])
    ∷ (0xE2 ∷ 0x80 ∷ 0x81 ∷ [])
    ∷ (0xE2 ∷ 0x80 ∷ 0x82 ∷ [])
    ∷ (0xE2 ∷ 0x80 ∷ 0x83 ∷ [])
    ∷ (0xE2 ∷ 0x80 ∷ 0x84 ∷ [])
    ∷ (0xE2 ∷ 0x80 ∷ 0x85 ∷ [])
    ∷ (0xE2 ∷ 0x80 ∷ 0x86 ∷ [])
    ∷ (0xE2 ∷ 0x80 ∷ 0x87 ∷ [])
    ∷ (0xE2 ∷ 0x80 ∷ 0x88 ∷ [])
    ∷ (0xE2 ∷ 0x80 ∷ 0x89 ∷ [])
    ∷ (0xE2 ∷ 0x80 ∷ 0x8A ∷ [])
    ∷ (0xE2 ∷ 0x80 ∷ 0xA8 ∷ [])
    ∷ (0xE2 ∷ 0x80 ∷ 0xA9 ∷ [])
    ∷ (0xE2 ∷ 0x80 ∷ 0xAF ∷ [])
    ∷ (0xE2 ∷ 0x81 ∷ 0x9F ∷ [])
    ∷ (0xE3 ∷ 0x80 ∷ 0x80 ∷ [])
    ∷ []

-- What follows a prefix.
unfoldable pub after : Bytes → Bytes → Option Bytes
after [] s = some s
after (p ∷ ps) [] = none
after (p ∷ ps) (c ∷ s) = if p == c then after ps s else none

-- What follows the first of the words that is in front.
unfoldable pub after_any : List Bytes → Bytes → Option Bytes
unfolding after
after_any [] s = none
after_any (w ∷ ws) s = elim (after w s) [ some s' ↦ some s' | none ↦ after_any ws s ]

-- Every character of the table in front is cut off, in as many rounds as there may be.
unfoldable pub trim_front : List Bytes → ℕ → Bytes → Bytes
trim_front ws zero s = s
trim_front ws (suc fuel) s = elim (after_any ws s) [ none ↦ s | some s' ↦ trim_front ws fuel s' ]

unfoldable pub trim_space : Bytes → Bytes
trim_space s =
    let t = trim_front white_space (length s) s in
    reverse (trim_front (map reverse white_space) (length t) (reverse t))

-- A visible ASCII character.
abbrev pub IsVisible : ℕ → Type 0
IsVisible c = (0x20 < c) × (c < 0x7F)

-- A word that no visible character begins.
abbrev Unseen : Bytes → Type 0
Unseen [] = ⊥
Unseen (p ∷ ps) = (p ≤ 0x20) ⊎ (0x7F ≤ p)

after-none : (w : Bytes) (c : ℕ) (s : Bytes) → Unseen w → IsVisible c → after w (c ∷ s) ≡ none
unfolding after
after-none [] c s h v = absurd h
after-none (p ∷ ps) c s h v = ground arith

after_any-none :
    (ws : List Bytes) (c : ℕ) (s : Bytes)
    → All Unseen ws
    → IsVisible c
    → after_any ws (c ∷ s) ≡ none
unfolding after_any
after_any-none [] c s h v = refl
after_any-none (w ∷ ws) c s (u, h) v =
    rw (after_any, after-none w c s u v) (after_any-none ws c s h v)

after_any-empty : (ws : List Bytes) → All Unseen ws → after_any ws [] ≡ none
unfolding after_any after
after_any-empty [] h = refl
after_any-empty ([] ∷ ws) (u, h) = absurd u
after_any-empty ((p ∷ ps) ∷ ws) (u, h) = after_any-empty ws h

trim_front-none :
    (ws : List Bytes) (fuel : ℕ) (s : Bytes)
    → All Unseen ws
    → All IsVisible s
    → trim_front ws fuel s ≡ s
unfolding trim_front
trim_front-none ws zero s h v = refl
trim_front-none ws (suc fuel) [] h v = rw (trim_front, after_any-empty ws h)
trim_front-none ws (suc fuel) (c ∷ s) h v = rw (trim_front, after_any-none ws c s h v.0)

pub All-reverse {ℓ κ} : {A : Type ℓ} (P : A → Type κ) (xs : List A) → All P xs → All P (reverse xs)
All-reverse P [] h = tt
All-reverse P (x ∷ xs) (p, h) =
    subst (All P) (sym (reverse-cons x xs))
      (All-append P (reverse xs) (x ∷ []) (All-reverse P xs h) (p, tt))

white_space-Unseen : All Unseen white_space × All Unseen (map reverse white_space)
unfolding white_space
white_space-Unseen = ground arith

-- A text of visible characters is not trimmed.
pub trim_space-visible : (s : Bytes) → All IsVisible s → trim_space s ≡ s
unfolding trim_space
trim_space-visible s v =
    rw
      (
        trim_front-none white_space (length s) s white_space-Unseen.0 v,
        trim_front-none (map reverse white_space) (length s) (reverse s) white_space-Unseen.1
            (All-reverse IsVisible s v),
      )
      (reverse-reverse s)
