-- ===== src/Levin/VarIn/Laws.antt =====
-- The two functions are inverse to one another, and the reader on any bytes.
use native.Mathlib.Nat.{mod-eq_of_lt, pow-le-pow_right}
use native.Mathlib.Decide.{dec_lt}
use go_monero.Base.{
  ℕ, ◌+◌, ◌*◌, ◌/◌, ◌%◌, ◌^◌, ◌≤◌, ◌<◌, ◌≡◌, ◌↔◌, if◌then◌else◌, [], ◌∷◌, ◌++◌, length, bit_or,
  bit_and, arith, leb, ◌==◌, ok, err, Ensures, holds, panicked, Ensures-bind, Ensures-if,
}
use go_monero.Base.Bits.{bit_or_low, low_two}
use go_monero.Base.Bytes.{Bytes, IsBytes, le_bytes, le_bytes-IsBytes, length-le_bytes}
use go_monero.Levin.Slice.{slice_uint-le_bytes, slice_uint-Ensures}
use go_monero.Levin.Error.{Error, int_too_big}
use go_monero.Levin.VarIn.{marked, read_scaled, var_in, read_var_int}

-- The bytes in plain arithmetic: four times the number, and the mark.
unfoldable pub encoding : ℕ → Bytes
encoding i =
    if leb i 63
    then i * 4 ∷ []
    else if leb i 16383
    then le_bytes 2 (i * 4 + 1)
    else le_bytes 4 (i * 4 + 2)

marked_sum : (x mark : ℕ) → mark < 4 → bit_or (x * 4) mark ≡ x * 4 + mark
marked_sum x mark h = bit_or_low 2 mark x (omega arith)

marked_word : (width i mark : ℕ) → mark < 4 → i * 4 < 2 ^ width → marked width i mark ≡ i * 4 + mark
marked_word width i mark h fits =
    rw (mod-eq_of_lt {n = i} {m = 2 ^ width} (omega arith), mod-eq_of_lt fits) (marked_sum i mark h)

pub var_in-encoding : (i : ℕ) → i < 2 ^ 30 → var_in i ≡ ok (encoding i)
unfolding var_in encoding
var_in-encoding i h = ground (arith, marked_word 8 i 0, marked_word 16 i 1, marked_word 32 i 2)

-- Numbers from 2^30 on are refused, and only those.
pub var_in_refuses : (i : ℕ) → (var_in i ≡ err int_too_big) ↔ (2 ^ 30 ≤ i)
unfolding var_in
var_in_refuses i = ground arith

pub length-encoding : (i : ℕ) → (1 ≤ length (encoding i)) × (length (encoding i) ≤ 4)
unfolding encoding
length-encoding i = ground (arith, length-le_bytes 2 (i * 4 + 1), length-le_bytes 4 (i * 4 + 2))

pub encoding-IsBytes : (i : ℕ) → IsBytes (encoding i)
unfolding encoding
encoding-IsBytes i = ground (arith, le_bytes-IsBytes 2 (i * 4 + 1), le_bytes-IsBytes 4 (i * 4 + 2))

pub read_var_int-encoding :
    (spare : Bytes) (i : ℕ) (rest : Bytes)
    → i < 2 ^ 30
    → read_var_int spare (encoding i ++ rest) ≡ ok (i, rest, spare)
unfolding read_var_int encoding le_bytes
read_var_int-encoding spare i rest h = ground (
  arith,
  low_two (i * 4),
  low_two ((i * 4 + 1) % 256),
  low_two ((i * 4 + 2) % 256),
  slice_uint-le_bytes {E = Error} spare 2 (i * 4 + 1) rest,
  slice_uint-le_bytes {E = Error} spare 4 (i * 4 + 2) rest,
)

-- What `VarIn` wrote is read back, with what stands behind it left, whatever the capacity of the slice.
pub read_var_int-var_in :
    (spare : Bytes) (i : ℕ) (bs rest : Bytes)
    → var_in i ≡ ok bs
    → read_var_int spare (bs ++ rest) ≡ ok (i, rest, spare)
read_var_int-var_in spare i bs rest h = elim (dec_lt i (2 ^ 30)) [
  | yes small ↦
      let e : bs ≡ encoding i = cc (var_in-encoding i small) in
      rw e (read_var_int-encoding spare i rest small)
  | no large ↦ cc ((var_in_refuses i).1 (omega arith))
]

abbrev pub Taken : Bytes → ℕ × Bytes × Bytes → Type 0
Taken b (v, rest, behind) =
    (v < 2 ^ 30)
    × (length rest < length b)
    × (length b ≤ length rest + 4)
    × IsBytes rest
    × IsBytes behind

read_scaled-Ensures :
    (spare : Bytes) (k : ℕ) (b : Bytes)
    → (1 ≤ k) × (k ≤ 4)
    → 1 ≤ length b
    → IsBytes spare
    → IsBytes b
    → Ensures (Taken b) (read_scaled spare k b)
read_scaled-Ensures spare k b (lo, hi) some hs h =
    Ensures-bind (slice_uint-Ensures spare k b hs h) λ (v, rest, behind) (small, taken, hr, hb).
      let bound : 256 ^ k ≤ 256 ^ 4 = pow-le-pow_right {n = 256} (omega arith) hi in
      holds (omega arith, omega arith, omega arith, hr, hb)

-- On any bytes: the reader panics, or it takes 1 to 4 bytes, as far as they are there, and returns a
-- number below 2^30.
pub read_var_int_takes :
    (spare b : Bytes) → IsBytes spare → IsBytes b → Ensures (Taken b) (read_var_int spare b)
unfolding read_var_int
read_var_int_takes spare [] hs h = panicked
read_var_int_takes spare (b ∷ bs) hs (hb, h) =
    let mark : ℕ = bit_and b 0x03 in
    Ensures-if (mark == 0)
      (λ _. holds {a = (b / 4, bs, spare)} (omega arith, omega arith, omega arith, h, hs))
      λ _.
        Ensures-if (mark == 1)
          (λ _. read_scaled-Ensures spare 2 (b ∷ bs) (omega arith) (omega arith) hs (hb, h))
          λ _.
            Ensures-if (mark == 2)
              (λ _. read_scaled-Ensures spare 4 (b ∷ bs) (omega arith) (omega arith) hs (hb, h))
              λ _. Ensures-if (mark == 3) (λ _. panicked) (λ _. panicked)
