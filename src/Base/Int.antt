-- ===== src/Base/Int.antt =====
-- Signed machine integers: the integers, and their two's complement patterns.
use go_monero.Base.{ℕ, suc, ◌+◌, ◌-◌, ◌<◌, ◌≡◌, Bool, true, arith, ltb, leb, if◌then◌else◌}

-- `negsuc n` is -(n + 1).
pub data ℤ : Type 0 where
  pos : ℕ → ℤ
  negsuc : ℕ → ℤ

-- `a >= b`.
abbrev pub leb_ℤ : ℤ → ℤ → Bool
leb_ℤ (pos a) (pos b) = leb a b
leb_ℤ (pos a) (negsuc b) = Bool.false
leb_ℤ (negsuc a) (pos b) = true
leb_ℤ (negsuc a) (negsuc b) = leb b a

-- The value of an intW, as the range of the type.
abbrev pub IsSigned : ℕ → ℤ → Type 0
IsSigned half (pos n) = n < half
IsSigned half (negsuc n) = n < half

-- `uintW(x)` and `intW(u)`, for the modulus 2 ^ W = 2 * half.
abbrev pub to_unsigned : ℕ → ℤ → ℕ
to_unsigned half (pos n) = n
to_unsigned half (negsuc n) = half + half - suc n

abbrev pub to_signed : ℕ → ℕ → ℤ
to_signed half u = if ltb u half then pos u else negsuc (half + half - u - 1)

pub to_signed-to_unsigned :
    (half : ℕ) (x : ℤ) → IsSigned half x → to_signed half (to_unsigned half x) ≡ x
to_signed-to_unsigned half (pos n) h = ground arith
to_signed-to_unsigned half (negsuc n) h = ground arith

pub to_unsigned-to_signed : (half u : ℕ) → u < half + half → to_unsigned half (to_signed half u) ≡ u
to_unsigned-to_signed half u h = ground arith

pub to_unsigned-lt : (half : ℕ) (x : ℤ) → IsSigned half x → to_unsigned half x < half + half
to_unsigned-lt half (pos n) h = omega arith
to_unsigned-lt half (negsuc n) h = omega arith

pub to_signed-IsSigned : (half u : ℕ) → u < half + half → IsSigned half (to_signed half u)
to_signed-IsSigned half u h = ground arith
