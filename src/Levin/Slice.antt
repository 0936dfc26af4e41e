-- ===== src/Levin/Slice.antt =====
-- Slice expressions of levin/portable_storage.go, `b[0:4]` and `bytes[idx : idx+size]`: Go checks the
-- upper bound against the capacity of the slice, where an index is checked against its length. `spare`
-- is what the array behind the slice holds between its length and its capacity.
use mathlib.Core.Path.{subst}
use go_monero.Base.{
  ℕ, ◌-◌, ◌^◌, ◌≤◌, ◌<◌, ◌≡◌, sym, true, ◌++◌, append_assoc, length, take, drop, leb, length-append,
  length-take, length-drop, take-append, drop-append, take-append-drop, All-append,
  All-append_split, if◌then◌else◌, arith, Result, ok, panic, out_of_range, ◌>>=◌, Ensures, holds,
  panicked, Ensures-bind, Ensures-if,
}
use go_monero.Base.Bytes.{
  Bytes, IsByte, IsBytes, le_bytes, le_value, length-le_bytes, le_value-le_bytes, le_value-lt,
}

abbrev pub Sliced : Bytes → ℕ → Bytes → Bytes × Bytes × Bytes → Type 0
Sliced spare n bs (front, rest, behind) =
    IsBytes front
    × (length front ≡ n)
    × (length rest ≡ length bs - n)
    × IsBytes rest
    × IsBytes behind

module _ {ℓ} {E : Type ℓ} where
  -- The slice, what is behind it up to the length, and what is behind both up to the capacity.
  unfoldable pub slice : Bytes → ℕ → Bytes → Result E (Bytes × Bytes × Bytes)
  slice spare n bs =
      if leb n (length (bs ++ spare))
      then ok (take n (bs ++ spare), drop n bs, drop (n - length bs) spare)
      else panic out_of_range

  -- A little-endian number in a slice of `k` bytes.
  unfoldable pub slice_uint : Bytes → ℕ → Bytes → Result E (ℕ × Bytes × Bytes)
  slice_uint spare k bs = do
    (front, rest, behind) ← slice spare k bs
    ok (le_value front, rest, behind)

  -- Within the length the capacity makes no difference.
  pub slice-append :
      (spare xs ys : Bytes) (n : ℕ) → n ≡ length xs → slice spare n (xs ++ ys) ≡ ok (xs, ys, spare)
  unfolding slice
  slice-append spare xs ys n e = rw (
    e,
    fits (length xs) (length ((xs ++ ys) ++ spare))
        (omega (arith, length-append (xs ++ ys) spare, length-append xs ys)),
    append_assoc xs ys spare,
    take-append xs (ys ++ spare),
    drop-append xs ys,
    none_over,
  )
    where
      fits : (a b : ℕ) → a ≤ b → leb a b ≡ true
      fits a b h = ground arith

      none_over : length xs - length (xs ++ ys) ≡ 0
      none_over = omega (arith, length-append xs ys)

  pub slice_uint-le_bytes :
      (spare : Bytes) (k v : ℕ) (rest : Bytes)
      → v < 256 ^ k
      → slice_uint spare k (le_bytes k v ++ rest) ≡ ok (v, rest, spare)
  unfolding slice_uint
  slice_uint-le_bytes spare k v rest h = rw (
    slice-append spare (le_bytes k v) rest k (omega (arith, length-le_bytes k v)),
    le_value-le_bytes k v h,
  )

  -- The same, for every rest at once.
  pub slice_uint-front :
      (spare : Bytes) (k v : ℕ)
      → v < 256 ^ k
      → (rest : Bytes) → slice_uint spare k (le_bytes k v ++ rest) ≡ ok (v, rest, spare)
  slice_uint-front spare k v h rest = slice_uint-le_bytes spare k v rest h

  pub slice-Sliced :
      (spare : Bytes) (n : ℕ) (bs : Bytes)
      → IsBytes spare
      → IsBytes bs
      → Ensures (Sliced spare n bs) (slice spare n bs)
  unfolding slice
  slice-Sliced spare n bs hs h =
      Ensures-if (leb n (length (bs ++ spare)))
        (λ long. holds (
          (IsBytes-split n (bs ++ spare) (All-append IsByte bs spare h hs)).0,
          ground (arith, length-take n (bs ++ spare)),
          omega (arith, length-drop n bs),
          (IsBytes-split n bs h).1,
          (IsBytes-split (n - length bs) spare hs).1,
        ))
        (λ _. panicked)
    where
      IsBytes-split : (m : ℕ) (b : Bytes) → IsBytes b → IsBytes (take m b) × IsBytes (drop m b)
      IsBytes-split m b hb =
          All-append_split IsByte (take m b) (drop m b)
            (subst IsBytes (sym (take-append-drop m b)) hb)

  pub slice_uint-Ensures :
      (spare : Bytes) (k : ℕ) (bs : Bytes)
      → IsBytes spare
      → IsBytes bs
      → Ensures
          (λ (v, rest, behind).
            (v < 256 ^ k) × (length rest ≡ length bs - k) × IsBytes rest × IsBytes behind)
          (slice_uint spare k bs)
  unfolding slice_uint
  slice_uint-Ensures spare k bs hs h =
      Ensures-bind (slice-Sliced spare k bs hs h) λ (front, rest, behind) (hf, l, len, hr, hb).
        holds (subst (λ (n : ℕ). le_value front < 256 ^ n) l (le_value-lt front hf), len, hr, hb)
