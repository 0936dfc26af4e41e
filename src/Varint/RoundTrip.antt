-- ===== src/Varint/RoundTrip.antt =====
-- What the two encoders write, and that the reader reads it back.
use mathlib.Core.WellFounded.{Acc}
use mathlib.Core.Logic.{dif_pos, dif_neg}
use native.Mathlib.Bridge.{le_prop}
use native.Mathlib.Decide.{dec_lt}
use native.Mathlib.Nat.{pow-le-pow_right, mod-eq_of_lt, div-add-mod, mul-le-mul_right}
use native.Mathlib.Numerals.{towards_suc}
use go_monero.Base.{
  ℕ, ◌+◌, ◌*◌, ◌/◌, ◌%◌, ◌^◌, ◌≤◌, ◌<◌, ◌≡◌, ap, ◌∙◌, ◌∷◌, ◌++◌, length, bit_and, bit_or, arith, ok,
}
use go_monero.Base.Bits.{bit_and_seven, bit_or_disjoint, top_bit}
use go_monero.Base.Bytes.{IsBytes}
use go_monero.Base.Order.{lt_wf}
use go_monero.Varint.{
  IsU64, shift_shrinks, encode_loop, encode_varint, to_bytes_loop, uint64_to_bytes, Reader,
  add_group, read_loop, read_varint,
}

-- A byte with the top bit set over seven bits.
inner_byte : (n : ℕ) → bit_or (bit_and n 0x7f) 0x80 ≡ n % 128 + 128
inner_byte n = omega (
  arith,
  bit_and_seven n,
  ap (λ (t : ℕ). bit_or t 0x80) (bit_and_seven n),
  bit_or_disjoint 7 (n % 128) 1 (omega arith),
)

encode_loop-to_bytes_loop : (n : ℕ) (w v : Acc ◌<◌ n) → encode_loop n w ≡ to_bytes_loop n v
unfolding encode_loop to_bytes_loop
encode_loop-to_bytes_loop n (Acc.intro _ f) (Acc.intro _ g) = grind (
  arith,
  inner_byte n,
  bit_and_seven n,
  λ (p q : n / 128 < n). encode_loop-to_bytes_loop (n / 128) (f (n / 128) p) (g (n / 128) q),
)

-- The two encoders of the repository write the same bytes for every number.
pub encode_varint-uint64_to_bytes : (n : ℕ) → encode_varint n ≡ uint64_to_bytes n
unfolding encode_varint uint64_to_bytes
encode_varint-uint64_to_bytes n = encode_loop-to_bytes_loop n (lt_wf.apply n) (lt_wf.apply n)

encode_loop-IsBytes :
    (n : ℕ) (w : Acc ◌<◌ n) → IsBytes (encode_loop n w) × (1 ≤ length (encode_loop n w))
unfolding encode_loop
encode_loop-IsBytes n (Acc.intro _ f) = grind (
  arith,
  inner_byte n,
  bit_and_seven n,
  λ (p : n / 128 < n). encode_loop-IsBytes (n / 128) (f (n / 128) p),
)

-- An encoding has a byte.
pub length-encode_varint : (n : ℕ) → 1 ≤ length (encode_varint n)
unfolding encode_varint
length-encode_varint n = (encode_loop-IsBytes n (lt_wf.apply n)).1

group_bits :
    (g b shift acc : ℕ)
    → b % 128 ≡ g
    → acc < 2 ^ shift
    → g * 2 ^ shift < 2 ^ 64
    → add_group acc b shift ≡ acc + g * 2 ^ shift
group_bits g b shift acc e h fits =
    rw (bit_and_seven b, e, mod-eq_of_lt fits) (bit_or_disjoint shift acc g h)

shift_seven : (s : ℕ) → 2 ^ (s + 7) ≡ 128 * 2 ^ s
shift_seven s = simp towards_suc (omega arith)

shift-lt : (n shift : ℕ) → 0 < n → n * 2 ^ shift < 2 ^ 64 → shift < 64
shift-lt n shift p h = elim (dec_lt shift 64) [
  | yes lt ↦ lt
  | no ge ↦
      let big : 2 ^ 64 ≤ 2 ^ shift =
        pow-le-pow_right {n = 2} (omega arith) {i = 64} {j = shift} (omega arith) in
      absurd (grind arith)
]

-- One round of the reader, on a last byte and on a byte with the top bit set.
read_last :
    (b acc shift : ℕ) (rest : Reader)
    → b < 128
    → shift < 64
    → acc < 2 ^ shift
    → b * 2 ^ shift < 2 ^ 64
    → read_loop (b ∷ rest) acc shift ≡ (ok (acc + b * 2 ^ shift), rest)
unfolding read_loop
read_last b acc shift rest hb hs ha hn = ground (arith, group_bits b b shift acc, top_bit b)

read_more :
    (g acc shift : ℕ) (rest : Reader)
    → g < 128
    → shift < 64
    → acc < 2 ^ shift
    → g * 2 ^ shift < 2 ^ 64
    → read_loop ((g + 128) ∷ rest) acc shift ≡ read_loop rest (acc + g * 2 ^ shift) (shift + 7)
unfolding read_loop
read_more g acc shift rest hg hs ha hn =
    ground (arith, group_bits g (g + 128) shift acc, top_bit (g + 128))

-- The lowest group of `n` and the rest, both shifted.
split_group : (n s : ℕ) → n * 2 ^ s ≡ n % 128 * 2 ^ s + n / 128 * 2 ^ (s + 7)
split_group n s = omega (
  arith,
  ap (λ (t : ℕ). t * 2 ^ s) (div-add-mod n 128),
  ap (λ (t : ℕ). n / 128 * t) (shift_seven s),
)

read_loop-encode_loop :
    (n : ℕ) (w : Acc ◌<◌ n) (acc shift : ℕ) (rest : Reader)
    → shift < 64
    → acc < 2 ^ shift
    → n * 2 ^ shift < 2 ^ 64
    → read_loop (encode_loop n w ++ rest) acc shift ≡ (ok (acc + n * 2 ^ shift), rest)
unfolding read_loop encode_loop
read_loop-encode_loop n (Acc.intro _ f) acc shift rest hs ha hn = elim (dec_lt 0 (n / 128)) [
  | yes more ↦
      let ih =
        read_loop-encode_loop (n / 128) (f _ (shift_shrinks n more)) (acc + n % 128 * 2 ^ shift)
          (shift + 7) rest
          (shift-lt (n / 128) (shift + 7) more (omega (arith, split_group n shift)))
          (omega (arith, shift_seven shift, mul-le-mul_right (2 ^ shift) below))
          (omega (arith, split_group n shift)) in
      rw (dif_pos _ le_prop more, inner_byte n)
        (read_more (n % 128) acc shift _ (omega arith) hs ha (omega (arith, split_group n shift))
          ∙ ih
          ∙ ap (λ (t : ℕ). (ok t, rest)) (omega (arith, split_group n shift)))
  | no last ↦
      rw (dif_neg _ last, bit_and_seven n)
        (read_last (n % 128) acc shift rest (omega arith) hs ha (omega (arith, split_group n shift))
          ∙ ap (λ (t : ℕ). (ok t, rest)) (omega (arith, small (omega arith))))
]
  where
    below : n % 128 ≤ 127
    below = omega arith

    small : n / 128 ≡ 0 → n % 128 * 2 ^ shift ≡ n * 2 ^ shift
    small e = ap (λ (t : ℕ). t * 2 ^ shift) (omega arith)

-- The reader returns the uint64 that was written, and stands behind it.
pub read_varint-encode_varint :
    (n : ℕ) (rest : Reader) → IsU64 n → read_varint (encode_varint n ++ rest) ≡ (ok n, rest)
unfolding read_varint encode_varint
read_varint-encode_varint n rest h =
    read_loop-encode_loop n (lt_wf.apply n) 0 0 rest (omega arith) (omega arith) (omega arith)
    ∙ ap (λ (t : ℕ). (ok t, rest)) (omega arith)
