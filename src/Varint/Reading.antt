-- ===== src/Varint/Reading.antt =====
-- The reader on any bytes, well formed or not.
use go_monero.Base.{ℕ, ◌+◌, ◌*◌, ◌≤◌, ◌<◌, ◌≡◌, [], ◌∷◌, length, arith, ok}
use go_monero.Base.Bits.{bit_or-lt_pow}
use go_monero.Varint.{IsU64, Reader, add_group, read_loop, read_varint}

add_group-IsU64 : (result b shift : ℕ) → IsU64 result → IsU64 (add_group result b shift)
add_group-IsU64 result b shift h = bit_or-lt_pow 64 result _ h (omega arith)

-- Before the byte number `j` the shift is 7 * j.
read_loop_takes :
    (bs : Reader) (result shift j v : ℕ) (rest : Reader)
    → shift ≡ 7 * j
    → IsU64 result
    → read_loop bs result shift ≡ (ok v, rest)
    → IsU64 v × (length rest < length bs) × (length bs + j ≤ length rest + 10)
unfolding read_loop
read_loop_takes [] result shift j v rest hs h e = ground arith
read_loop_takes (b ∷ bs) result shift j v rest hs h e = ground (
  arith,
  add_group-IsU64 result b shift,
  read_loop_takes bs (add_group result b shift) (shift + 7) (j + 1) v rest,
)

-- A successful read returns a uint64 and takes 1 to 10 bytes off the reader.
pub read_varint_takes :
    (bs : Reader) (v : ℕ) (rest : Reader)
    → read_varint bs ≡ (ok v, rest)
    → IsU64 v × (length rest < length bs) × (length bs ≤ length rest + 10)
unfolding read_varint
read_varint_takes bs v rest e = ground (arith, read_loop_takes bs 0 0 0 v rest)
