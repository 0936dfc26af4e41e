-- ===== src/Base/Bits.antt =====
-- Masks and disjoint unions of bits as arithmetic, for numbers of every width.
use Prim.Native.Nat.{digits, bit_or-bitwise, bit_and-bitwise, bit_xor-bitwise, differ, max, min}
use native.Mathlib.Decide.{dec_le}
use native.Mathlib.Nat.{pow-suc}
use go_monero.Base.{
  ℕ, zero, suc, ◌+◌, ◌*◌, ◌/◌, ◌%◌, ◌^◌, ◌≤◌, ◌<◌, ◌≡◌, refl, ap, bit_and, bit_or, bit_xor, arith,
  Bool, true, false, if◌then◌else◌, ◌∙◌, ◌==◌, ==_iff,
}

-- A test on 0, ..., k - 1.
unfoldable pub passes : (ℕ → Bool) → ℕ → Bool
passes test zero = true
passes test (suc k) = if test k then passes test k else false

pub passes_each : (test : ℕ → Bool) (k : ℕ) {i : ℕ} → passes test k ≡ true → i < k → test i ≡ true
unfolding passes
passes_each test zero ok lt = absurd (omega arith)
passes_each test (suc k) {i = i} ok lt =
    ground (arith, λ (q : passes test k ≡ true) (l : i < k). passes_each test k {i = i} q l)

-- Two functions that agree on the table agree on every byte.
agree : (f g : ℕ → ℕ) → passes (λ x. f x == g x) 256 ≡ true → (x : ℕ) → x < 256 → f x ≡ g x
agree f g t x h = (==_iff _ _).0 (passes_each (λ y. f y == g y) 256 t h)

pub top_bit : (b : ℕ) → b < 256 → bit_and b 0x80 ≡ b / 128 * 128
unfolding passes
top_bit = agree _ _ refl

pub low_two : (b : ℕ) → b < 256 → bit_and b 0x03 ≡ b % 4
unfolding passes
low_two = agree _ _ refl

-- The native operations stand for a recursion on binary digits that is given `a` rounds; half of
-- them are as good.
module _ (stop : ℕ → ℕ) (digit : ℕ → ℕ → ℕ) where
  one_more : (r a b : ℕ) → a ≤ r → digits stop digit (suc r) a b ≡ digits stop digit r a b
  one_more zero zero b h = refl
  one_more zero (suc a) b h = absurd (omega arith)
  one_more (suc r) zero b h = refl
  one_more (suc r) (suc a) b h =
      ap (λ (t : ℕ). t * 2 + digit (suc a % 2) (b % 2))
        (one_more r (suc a / 2) (b / 2) (omega arith))

  spare :
      (rounds least a b : ℕ)
      → least ≤ rounds
      → a ≤ least
      → digits stop digit rounds a b ≡ digits stop digit least a b
  spare zero least a b p h =
      let e : 0 ≡ least = omega arith in ap (λ (t : ℕ). digits stop digit t a b) e
  spare (suc r) least a b p h = elim (dec_le least r) [
    | yes q ↦ one_more r a b (omega arith) ∙ spare r least a b q h
    | no q ↦ let e : suc r ≡ least = omega arith in ap (λ (t : ℕ). digits stop digit t a b) e
  ]

  halved :
      (a b : ℕ)
      → digits stop digit a (suc a / 2) (b / 2) ≡ digits stop digit (suc a / 2) (suc a / 2) (b / 2)
  halved a b = spare a (suc a / 2) (suc a / 2) (b / 2) (omega arith) (omega arith)

or_nothing : (y : ℕ) → bit_or 0 y ≡ y
or_nothing y = bit_or-bitwise 0 y

and_nothing : (y : ℕ) → bit_and 0 y ≡ 0
and_nothing y = bit_and-bitwise 0 y

bit_or_step : (x y : ℕ) → bit_or x y ≡ bit_or (x / 2) (y / 2) * 2 + max (x % 2) (y % 2)
bit_or_step zero y = omega (arith, or_nothing (y / 2), or_nothing y)
bit_or_step (suc x) y = omega (
  arith,
  halved (λ rest. rest) max x y,
  bit_or-bitwise (suc x / 2) (y / 2),
  bit_or-bitwise (suc x) y,
)

bit_and_step : (x y : ℕ) → bit_and x y ≡ bit_and (x / 2) (y / 2) * 2 + min (x % 2) (y % 2)
bit_and_step zero y = omega (arith, and_nothing (y / 2), and_nothing y)
bit_and_step (suc x) y = omega (
  arith,
  halved (λ rest. 0) min x y,
  bit_and-bitwise (suc x / 2) (y / 2),
  bit_and-bitwise (suc x) y,
)

no_mask : (fuel n : ℕ) → n ≤ fuel → bit_and n 0 ≡ 0
no_mask zero n h = let e : n ≡ 0 = omega arith in rw e (and_nothing 0)
no_mask (suc fuel) n h = omega (arith, no_mask fuel (n / 2) (omega arith), bit_and_step n 0)

low_bits_three : (n : ℕ) → bit_and n 7 ≡ n % 8
low_bits_three n =
    let n1 = n / 2 in
    let n2 = n1 / 2 in
    omega (
      arith,
      bit_and_step n 7,
      bit_and_step n1 3,
      bit_and_step n2 1,
      no_mask (n2 / 2) (n2 / 2) (omega arith),
    )

-- `n & 0x7F` at any width.
pub bit_and_seven : (n : ℕ) → bit_and n 0x7f ≡ n % 128
bit_and_seven n = omega (
  arith,
  bit_and_step n 127,
  bit_and_step (n / 2) 63,
  bit_and_step (n / 2 / 2) 31,
  bit_and_step (n / 2 / 2 / 2) 15,
  low_bits_three (n / 2 / 2 / 2 / 2),
)

bit_or_comm_fuel : (n a b : ℕ) → a ≤ n → b ≤ n → bit_or a b ≡ bit_or b a
bit_or_comm_fuel zero a b p q = let e : a ≡ b = omega arith in rw e
bit_or_comm_fuel (suc n) a b p q = omega (
  arith,
  bit_or_step a b,
  bit_or_step b a,
  bit_or_comm_fuel n (a / 2) (b / 2) (omega arith) (omega arith),
)

pub bit_or_comm : (a b : ℕ) → bit_or a b ≡ bit_or b a
bit_or_comm a b = bit_or_comm_fuel (a + b) a b (omega arith) (omega arith)

-- `a | x << s` where `a` has `s` bits.
pub bit_or_disjoint : (s a x : ℕ) → a < 2 ^ s → bit_or a (x * 2 ^ s) ≡ a + x * 2 ^ s
bit_or_disjoint zero a x h =
    let e : a ≡ 0 = omega arith in rw e (omega (arith, or_nothing (x * 2 ^ 0)))
bit_or_disjoint (suc s) a x h = omega (
  arith,
  bit_or_step a (x * 2 ^ suc s),
  double,
  ap (λ (t : ℕ). bit_or (a / 2) t) halves,
  bit_or_disjoint s (a / 2) x (omega (arith, pow-suc 2 s)),
)
  where
    double : x * 2 ^ suc s ≡ x * 2 ^ s * 2
    double = omega (arith, ap (λ (t : ℕ). x * t) (pow-suc 2 s))

    halves : x * 2 ^ suc s / 2 ≡ x * 2 ^ s
    halves = omega (arith, double)

-- `x << s | a`, the same the other way round.
pub bit_or_low : (s a x : ℕ) → a < 2 ^ s → bit_or (x * 2 ^ s) a ≡ x * 2 ^ s + a
bit_or_low s a x h = omega (arith, bit_or_comm (x * 2 ^ s) a, bit_or_disjoint s a x h)

pub bit_or-lt_pow : (k a b : ℕ) → a < 2 ^ k → b < 2 ^ k → bit_or a b < 2 ^ k
bit_or-lt_pow zero a b p q = let e : a ≡ 0 = omega arith in rw e (omega (arith, or_nothing b))
bit_or-lt_pow (suc k) a b p q = omega (
  arith,
  bit_or_step a b,
  pow-suc 2 k,
  bit_or-lt_pow k (a / 2) (b / 2) (omega (arith, pow-suc 2 k)) (omega (arith, pow-suc 2 k)),
)

xor_nothing : (y : ℕ) → bit_xor 0 y ≡ y
xor_nothing y = bit_xor-bitwise 0 y

bit_xor_step : (x y : ℕ) → bit_xor x y ≡ bit_xor (x / 2) (y / 2) * 2 + differ (x % 2) (y % 2)
bit_xor_step zero y =
    bit_zero (y % 2) (omega arith) (omega (arith, xor_nothing (y / 2), xor_nothing y))
  where
    bit_zero :
        (d : ℕ)
        → d < 2
        → bit_xor 0 y ≡ bit_xor (0 / 2) (y / 2) * 2 + d
        → bit_xor 0 y ≡ bit_xor (0 / 2) (y / 2) * 2 + differ 0 d
    bit_zero d h e = e
bit_xor_step (suc x) y = omega (
  arith,
  halved (λ rest. rest) differ x y,
  bit_xor-bitwise (suc x / 2) (y / 2),
  bit_xor-bitwise (suc x) y,
)

-- Two binary digits.
differ_twice : (d e : ℕ) → d < 2 → e < 2 → (differ (differ d e) e ≡ d) × (differ d e < 2)
differ_twice zero zero h k = omega arith
differ_twice zero (suc zero) h k = omega arith
differ_twice (suc zero) zero h k = omega arith
differ_twice (suc zero) (suc zero) h k = omega arith
differ_twice (suc (suc d)) e h k = absurd (omega arith)
differ_twice d (suc (suc e)) h k = absurd (omega arith)

bit_xor_twice_fuel : (n a b : ℕ) → a ≤ n → b ≤ n → bit_xor (bit_xor a b) b ≡ a
bit_xor_twice_fuel zero a b p q =
    let e : a ≡ 0 = omega arith in let f : b ≡ 0 = omega arith in rw (e, f)
bit_xor_twice_fuel (suc n) a b p q =
    let x = bit_xor a b in
    let (twice, lt) = differ_twice (a % 2) (b % 2) (omega arith) (omega arith) in
    let half : x / 2 ≡ bit_xor (a / 2) (b / 2) = omega (arith, bit_xor_step a b) in
    let low : x % 2 ≡ differ (a % 2) (b % 2) = omega (arith, bit_xor_step a b) in
    omega (
      arith,
      bit_xor_step x b,
      ap (λ (t : ℕ). bit_xor t (b / 2)) half,
      ap (λ (t : ℕ). differ t (b % 2)) low,
      bit_xor_twice_fuel n (a / 2) (b / 2) (omega arith) (omega arith),
    )

-- `a ^ b ^ b`
pub bit_xor_twice : (a b : ℕ) → bit_xor (bit_xor a b) b ≡ a
bit_xor_twice a b = bit_xor_twice_fuel (a + b) a b (omega arith) (omega arith)
