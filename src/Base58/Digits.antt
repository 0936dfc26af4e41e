-- ===== src/Base58/Digits.antt =====
-- Base 58 as Monero writes it, independently of the decoder: a block of 8 bytes, as one number, is
-- 11 digits, and the last block, of 5 bytes, is 7.
use native.Mathlib.Nat.{pow-suc}
use mathlib.Core.Path.{subst}
use mathlib.Core.List.{reverse, reverse-reverse, reverse-cons}
use go_monero.Base.{
  ℕ, zero, suc, ◌+◌, ◌*◌, ◌/◌, ◌%◌, ◌^◌, ◌<◌, ◌≡◌, refl, ap, sym, ◌∙◌, Bool, true, false, Option,
  none, some, [], ◌∷◌, ◌++◌, length, take, drop, All, All-append, length-append, arith, ◌==◌,
  Result, ok, err,
}
use go_monero.Base.Bits.{passes, passes_each}
use go_monero.Base.Bytes.{Bytes, IsByte, IsBytes}
use go_monero.Base.Space.{All-reverse}
use go_monero.Base58.{Base58Error, monero_base58_alphabet, b58_map, chunk_value, be_bytes}
use go_monero.Base58.Trim.{IsBase58Char}

unfoldable pub char_at : ℕ → Bytes → ℕ
char_at i [] = 0
char_at zero (c ∷ cs) = c
char_at (suc i) (c ∷ cs) = char_at i cs

-- `v` as `w` digits.
unfoldable pub digits : ℕ → ℕ → Bytes
digits zero v = []
digits (suc w) v = digits w (v / 58) ++ char_at (v % 58) monero_base58_alphabet ∷ []

-- Bytes as a number, the first the most significant.
unfoldable pub be_value : ℕ → Bytes → ℕ
be_value acc [] = acc
be_value acc (b ∷ bs) = be_value (acc * 256 + b) bs

-- `k` blocks of 8 bytes, then one of 5.
unfoldable pub encode_blocks : ℕ → Bytes → Bytes
encode_blocks zero b = digits 7 (be_value 0 b)
encode_blocks (suc k) b = digits 11 (be_value 0 (take 8 b)) ++ encode_blocks k (drop 8 b)

abbrev is_at : ℕ → Option ℕ → Bool
is_at i none = false
is_at i (some j) = i == j

is_at-true : (i : ℕ) (o : Option ℕ) → is_at i o ≡ true → o ≡ some i
is_at-true i none h = cc
is_at-true i (some j) h = ap some (ground arith)

-- The decoder's table sends every character of the alphabet to its place.
pub b58_map-char_at : (i : ℕ) → i < 58 → b58_map (char_at i monero_base58_alphabet) ≡ some i
unfolding b58_map char_at passes
b58_map-char_at i h =
    is_at-true i (b58_map (char_at i monero_base58_alphabet))
      (passes_each (λ j. is_at j (b58_map (char_at j monero_base58_alphabet))) 58 {i = i} refl h)

pub length-digits : (w v : ℕ) → length (digits w v) ≡ w
unfolding digits
length-digits zero v = refl
length-digits (suc w) v = omega (
  arith,
  length-append {0} (digits w (v / 58)) (char_at (v % 58) monero_base58_alphabet ∷ []),
  length-digits w (v / 58),
)

pub digits-chars : (w v : ℕ) → All IsBase58Char (digits w v)
unfolding digits
digits-chars zero v = tt
digits-chars (suc w) v =
    All-append IsBase58Char (digits w (v / 58)) _ (digits-chars w (v / 58))
      ((v % 58, b58_map-char_at (v % 58) (omega arith)), tt)

chunk_value-append :
    (acc : ℕ) (xs : Bytes) (d : ℕ) {v : ℕ}
    → d < 58
    → chunk_value acc xs ≡ ok v
    → chunk_value acc (xs ++ char_at d monero_base58_alphabet ∷ []) ≡ ok (v * 58 + d)
unfolding chunk_value
chunk_value-append acc [] d lt e = rw (chunk_value, b58_map-char_at d lt) (ground arith)
chunk_value-append acc (x ∷ xs) d {v} lt e =
    go (b58_map x) e (λ idx h. chunk_value-append (acc * 58 + idx) xs d lt h)
  where
    next : Bytes → Option ℕ → Result Base58Error ℕ
    next ys o = elim o [
      | none ↦ err Base58Error.invalid_char
      | some idx ↦ chunk_value (acc * 58 + idx) ys
    ]

    ys : Bytes
    ys = xs ++ char_at d monero_base58_alphabet ∷ []

    go :
        (o : Option ℕ)
        → next xs o ≡ ok v
        → ((idx : ℕ)
            → chunk_value (acc * 58 + idx) xs ≡ ok v
            → chunk_value (acc * 58 + idx) ys ≡ ok (v * 58 + d))
        → next ys o ≡ ok (v * 58 + d)
    go none h ih = cc
    go (some idx) h ih = ih idx h

-- What the digits of a number are worth.
pub chunk_value-digits : (w v : ℕ) → v < 58 ^ w → chunk_value 0 (digits w v) ≡ ok v
unfolding digits chunk_value
chunk_value-digits zero v h = ap ok (omega arith)
chunk_value-digits (suc w) v h =
    chunk_value-append 0 (digits w (v / 58)) (v % 58) (omega arith)
      (chunk_value-digits w (v / 58) (omega (arith, pow-suc 58 w)))
    ∙ ap ok (omega arith)

be_value-append :
    (acc : ℕ) (bs : Bytes) (b : ℕ) → be_value acc (bs ++ b ∷ []) ≡ be_value acc bs * 256 + b
unfolding be_value
be_value-append acc [] b = refl
be_value-append acc (c ∷ bs) b = be_value-append (acc * 256 + c) bs b

be_value-reverse :
    (b : ℕ) (bs : Bytes) → be_value 0 (reverse (b ∷ bs)) ≡ be_value 0 (reverse bs) * 256 + b
be_value-reverse b bs = ap (be_value 0) (reverse-cons b bs) ∙ be_value-append 0 (reverse bs) b

be_value-reverse-lt : (bs : Bytes) → IsBytes bs → be_value 0 (reverse bs) < 256 ^ length bs
unfolding be_value
be_value-reverse-lt [] h = omega arith
be_value-reverse-lt (b ∷ bs) (p, h) =
    omega (arith, be_value-reverse b bs, be_value-reverse-lt bs h, pow-suc 256 (length bs))

be_bytes-reverse :
    (bs : Bytes) → IsBytes bs → be_bytes (length bs) (be_value 0 (reverse bs)) ≡ reverse bs
unfolding be_bytes be_value
be_bytes-reverse [] h = refl
be_bytes-reverse (b ∷ bs) (p, h) =
    let n = be_value 0 (reverse bs) in
    ap (be_bytes (suc (length bs))) (be_value-reverse b bs)
    ∙ ap (λ (m : ℕ). be_bytes (length bs) m ++ ((n * 256 + b) % 256) ∷ []) (omega arith)
    ∙ ap (λ (c : ℕ). be_bytes (length bs) n ++ c ∷ []) (omega arith)
    ∙ ap (λ (t : Bytes). t ++ b ∷ []) (be_bytes-reverse bs h)
    ∙ sym (reverse-cons b bs)

pub length-be_bytes : (k v : ℕ) → length (be_bytes k v) ≡ k
unfolding be_bytes
length-be_bytes zero v = refl
length-be_bytes (suc k) v =
    omega (
      arith,
      length-append {0} (be_bytes k (v / 256)) ((v % 256) ∷ []),
      length-be_bytes k (v / 256),
    )

length-reverse : (bs : Bytes) → length (reverse bs) ≡ length bs
length-reverse [] = refl
length-reverse (b ∷ bs) =
    ap length (reverse-cons b bs)
    ∙ omega (arith, length-append {0} (reverse bs) (b ∷ []), length-reverse bs)

-- Bytes are written back from their value, which is below the bound of their number.
pub be_bytes-be_value :
    (k : ℕ) (bs : Bytes) → IsBytes bs → length bs ≡ k → be_bytes k (be_value 0 bs) ≡ bs
be_bytes-be_value k bs h e =
    ap (λ (n : ℕ). be_bytes n (be_value 0 bs)) (sym e ∙ sym (length-reverse bs))
    ∙ subst (λ (cs : Bytes). be_bytes (length (reverse bs)) (be_value 0 cs) ≡ cs)
        (reverse-reverse bs) (be_bytes-reverse (reverse bs) (All-reverse IsByte bs h))

pub be_value-lt : (k : ℕ) (bs : Bytes) → IsBytes bs → length bs ≡ k → be_value 0 bs < 256 ^ k
be_value-lt k bs h e =
    subst (λ (n : ℕ). be_value 0 bs < 256 ^ n) (length-reverse bs ∙ e)
      (subst (λ (cs : Bytes). be_value 0 cs < 256 ^ length (reverse bs)) (reverse-reverse bs)
        (be_value-reverse-lt (reverse bs) (All-reverse IsByte bs h)))
