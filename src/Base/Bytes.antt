-- ===== src/Base/Bytes.antt =====
-- Bytes, byte slices, and encoding/binary's little-endian numbers.
use native.Mathlib.Nat.{pow-suc}
use Prim.Native.Char.{code}
use mathlib.Core.Path.{subst}
use go_monero.Base.{
  ℕ, zero, suc, ◌+◌, ◌*◌, ◌/◌, ◌%◌, ◌^◌, ◌≤◌, ◌<◌, ◌≡◌, refl, ap, ◌∙◌, String, Bool, true, false,
  ◌&&◌, List, [], ◌∷◌, ◌++◌, length, take, drop, All, arith, leb, ◌==◌, if◌then◌else◌, Result, ok,
  panic, out_of_range, ◌>>=◌, take-append, drop-append, take-append-drop, length-append,
  length-take, sym, Ensures, holds, panicked, Ensures-bind, Ensures-weaken, All-append_split,
  Bool-cases, inl, inr,
}

abbrev pub IsByte : ℕ → Type 0
IsByte b = b < 256

-- A `[]byte`, and a Go `string`, which is a sequence of bytes.
abbrev pub Bytes : Type 0
Bytes = List ℕ

abbrev pub IsBytes : Bytes → Type 0
IsBytes = All IsByte

-- The bytes of an ASCII literal.
abbrev pub codes : String → Bytes
codes String.[] = []
codes (String.◌∷◌ c s) = code c ∷ codes s

-- `a == b` of two strings.
unfoldable pub bytes_eq : Bytes → Bytes → Bool
bytes_eq [] [] = true
bytes_eq [] (b ∷ bs) = false
bytes_eq (a ∷ as') [] = false
bytes_eq (a ∷ as') (b ∷ bs) = a == b && bytes_eq as' bs

pub bytes_eq_refl : (a : Bytes) → bytes_eq a a ≡ true
unfolding bytes_eq
bytes_eq_refl [] = refl
bytes_eq_refl (a ∷ as') = ground (arith, bytes_eq_refl as')

pub bytes_eq_sym : (a b : Bytes) → bytes_eq a b ≡ bytes_eq b a
unfolding bytes_eq
bytes_eq_sym [] [] = refl
bytes_eq_sym [] (b ∷ bs) = refl
bytes_eq_sym (a ∷ as') [] = refl
bytes_eq_sym (a ∷ as') (b ∷ bs) = ground (arith, bytes_eq_sym as' bs)

pub bytes_eq→eq : (a b : Bytes) → bytes_eq a b ≡ true → a ≡ b
unfolding bytes_eq
bytes_eq→eq [] [] h = refl
bytes_eq→eq [] (b ∷ bs) h = ground arith
bytes_eq→eq (a ∷ as') [] h = ground arith
bytes_eq→eq (a ∷ as') (b ∷ bs) h = ground (arith, bytes_eq→eq as' bs)

-- `binary.LittleEndian.PutUint16/32/64(b, v)` on `k` = 2, 4, 8 bytes.
unfoldable pub le_bytes : ℕ → ℕ → Bytes
le_bytes zero v = []
le_bytes (suc k) v = (v % 256) ∷ le_bytes k (v / 256)

-- `binary.LittleEndian.Uint16/32/64(b)`.
unfoldable pub le_value : Bytes → ℕ
le_value [] = 0
le_value (b ∷ bs) = b + 256 * le_value bs

pub length-le_bytes : (k v : ℕ) → length (le_bytes k v) ≡ k
unfolding le_bytes
length-le_bytes zero v = refl
length-le_bytes (suc k) v = ap suc (length-le_bytes k (v / 256))

pub le_bytes-IsBytes : (k v : ℕ) → IsBytes (le_bytes k v)
unfolding le_bytes
le_bytes-IsBytes zero v = tt
le_bytes-IsBytes (suc k) v = (omega arith, le_bytes-IsBytes k (v / 256))

pub le_value-le_bytes : (k v : ℕ) → v < 256 ^ k → le_value (le_bytes k v) ≡ v
unfolding le_bytes le_value
le_value-le_bytes zero v h = omega arith
le_value-le_bytes (suc k) v h =
    omega (arith, le_value-le_bytes k (v / 256) (omega (arith, pow-suc 256 k)))

pub le_value-lt : (bs : Bytes) → IsBytes bs → le_value bs < 256 ^ length bs
unfolding le_value
le_value-lt [] h = omega arith
le_value-lt (b ∷ bs) (p, h) = omega (arith, le_value-lt bs h, pow-suc 256 (length bs))

pub le_bytes-le_value : (bs : Bytes) → IsBytes bs → le_bytes (length bs) (le_value bs) ≡ bs
unfolding le_bytes le_value
le_bytes-le_value [] h = refl
le_bytes-le_value (b ∷ bs) (p, h) = ground (arith, le_bytes-le_value bs h)

-- `b[:n]` and `b[n:]` of a string, or of a slice with no capacity beyond its length: they panic beyond
-- the length.
module _ {ℓ} {E : Type ℓ} where
  unfoldable pub cut : ℕ → Bytes → Result E (Bytes × Bytes)
  cut n bs = if leb n (length bs) then ok (take n bs, drop n bs) else panic out_of_range

  -- `b[0]` and `b[1:]`.
  unfoldable pub cut_byte : Bytes → Result E (ℕ × Bytes)
  cut_byte [] = panic out_of_range
  cut_byte (b ∷ bs) = ok (b, bs)

  -- A little-endian number of `k` bytes, and what follows.
  unfoldable pub cut_uint : ℕ → Bytes → Result E (ℕ × Bytes)
  cut_uint k bs = do (front, rest) ← cut k bs; ok (le_value front, rest)

  pub cut-append : (xs ys : Bytes) (n : ℕ) → n ≡ length xs → cut n (xs ++ ys) ≡ ok (xs, ys)
  unfolding cut
  cut-append xs ys n e = rw (
    e,
    fits (length xs) (length (xs ++ ys)) (omega (arith, length-append xs ys)),
    take-append,
    drop-append,
  )
    where
      fits : (a b : ℕ) → a ≤ b → leb a b ≡ true
      fits a b h = ground arith

  pub cut_uint-le_bytes :
      (k v : ℕ) (rest : Bytes) → v < 256 ^ k → cut_uint k (le_bytes k v ++ rest) ≡ ok (v, rest)
  unfolding cut_uint
  cut_uint-le_bytes k v rest h = rw (
    cut-append (le_bytes k v) rest k (omega (arith, length-le_bytes k v)),
    le_value-le_bytes k v h,
  )

  -- The same, for every rest at once.
  pub cut_uint-front :
      (k v : ℕ) → v < 256 ^ k → (rest : Bytes) → cut_uint k (le_bytes k v ++ rest) ≡ ok (v, rest)
  cut_uint-front k v h rest = cut_uint-le_bytes k v rest h

  pub cut-Ensures :
      (n : ℕ) (bs : Bytes)
      → Ensures (λ (front, rest). (bs ≡ front ++ rest) × (length front ≡ n)) (cut n bs)
  unfolding cut
  cut-Ensures n bs = elim (Bool-cases (leb n (length bs))) [
    | inl fits ↦
        rw fits (holds (sym (take-append-drop n bs), omega (arith, length-take n bs, le fits)))
    | inr short ↦ rw short panicked
  ]
    where
      le : leb n (length bs) ≡ true → n ≤ length bs
      le h = ground arith

  -- What a read of `k` bytes leaves, and the range of the number.
  pub cut_uint-Ensures :
      (k : ℕ) (bs : Bytes)
      → IsBytes bs
      → Ensures
          (λ (v, rest). (v < 256 ^ k) × (length bs ≡ k + length rest) × IsBytes rest)
          (cut_uint k bs)
  unfolding cut_uint
  cut_uint-Ensures k bs h = Ensures-bind (cut-Ensures k bs) λ (front, rest) (e, l).
      let (hf, hr) = All-append_split IsByte front rest (subst IsBytes e h) in
      holds (
        subst (λ (n : ℕ). le_value front < 256 ^ n) l (le_value-lt front hf),
        omega (arith, l, ap length e, length-append front rest),
        hr,
      )

  pub cut-taken :
      (n : ℕ) (bs : Bytes)
      → IsBytes bs
      → Ensures
          (λ (front, rest).
            IsBytes front × (length front ≡ n) × (length bs ≡ n + length rest) × IsBytes rest)
          (cut n bs)
  cut-taken n bs h = Ensures-weaken (cut-Ensures n bs) λ (front, rest) (e, l).
      let (hf, hr) = All-append_split IsByte front rest (subst IsBytes e h) in
      (hf, l, omega (arith, l, ap length e, length-append front rest), hr)

  pub cut_byte-Ensures :
      (bs : Bytes)
      → IsBytes bs
      → Ensures
          (λ (b, rest). IsByte b × (length bs ≡ suc (length rest)) × IsBytes rest)
          (cut_byte bs)
  unfolding cut_byte
  cut_byte-Ensures [] h = panicked
  cut_byte-Ensures (b ∷ bs) (hb, h) = holds (hb, refl, h)

-- Bytes that are there are the bytes of a number, in front of the rest.
pub split_uint :
    (k : ℕ) (bs : Bytes)
    → IsBytes bs
    → k ≤ length bs
    → (v : ℕ) × (rest : Bytes) × (bs ≡ le_bytes k v ++ rest)
      × (v < 256 ^ k)
      × IsBytes rest
      × (length bs ≡ k + length rest)
split_uint k bs h le = (
  le_value front,
  drop k bs,
  whole,
  subst (λ (n : ℕ). le_value front < 256 ^ n) len (le_value-lt front parts.0),
  parts.1,
  omega (arith, len, length-append front (drop k bs), ap length (take-append-drop k bs)),
)
  where
    front : Bytes
    front = take k bs

    len : length front ≡ k
    len = omega (arith, length-take k bs)

    parts : IsBytes front × IsBytes (drop k bs)
    parts =
        All-append_split IsByte front (drop k bs) (subst IsBytes (sym (take-append-drop k bs)) h)

    whole : bs ≡ le_bytes k (le_value front) ++ drop k bs
    whole =
        sym (take-append-drop k bs)
        ∙ ap (λ (xs : Bytes). xs ++ drop k bs)
            (sym (
              subst (λ (n : ℕ). le_bytes n (le_value front) ≡ front) len
                (le_bytes-le_value front parts.0)))

-- The two ways to take such bytes apart in a proof.
module _ {ℓ} {C : Type ℓ} where
  pub with_uint :
      (k : ℕ) (bs : Bytes)
      → IsBytes bs
      → k ≤ length bs
      → ((v : ℕ) (rest : Bytes)
          → bs ≡ le_bytes k v ++ rest
          → v < 256 ^ k
          → IsBytes rest
          → length bs ≡ k + length rest
          → C)
      → C
  with_uint k bs h le f =
      let (v, rest, e, lt, hr, len) = split_uint k bs h le in f v rest e lt hr len

  pub with_byte :
      (bs : Bytes)
      → IsBytes bs
      → 1 ≤ length bs
      → ((b : ℕ) (rest : Bytes)
          → bs ≡ b ∷ rest
          → IsByte b
          → IsBytes rest
          → length bs ≡ 1 + length rest
          → C)
      → C
  with_byte [] h le f = absurd (omega arith)
  with_byte (b ∷ bs) (hb, h) le f = f b bs refl hb h (omega arith)
