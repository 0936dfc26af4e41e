-- ===== src/Base58/RoundTrip.antt =====
-- What is written in base 58 is decoded to the same bytes.
use go_monero.Base.{
  ℕ, zero, suc, ◌+◌, ◌*◌, ◌^◌, ◌≤◌, ◌<◌, ◌≡◌, refl, ap, ◌∙◌, sym, [], ◌∷◌, ◌++◌, length, take, drop,
  All, All-append, All-append_split, length-append, length-take, length-drop, take-append-drop,
  append-nil, arith, Result, ok,
}
use mathlib.Core.Path.{subst}
use go_monero.Base.Bytes.{Bytes, IsByte, IsBytes, cut-append}
use go_monero.Base58.{Base58Error, read_chunk, chunks, decode_trimmed, decode_monero_base58}
use go_monero.Base58.Trim.{IsBase58Char, trim_space-chars}
use go_monero.Base58.Digits.{
  digits, be_value, encode_blocks, length-digits, digits-chars, chunk_value-digits,
  be_bytes-be_value, be_value-lt,
}

-- A block in front of more characters.
read_chunk-digits :
    (rest : Bytes → Result Base58Error Bytes) (w k : ℕ) (b s out : Bytes)
    → IsBytes b
    → length b ≡ k
    → 256 ^ k ≤ 58 ^ w
    → rest s ≡ ok out
    → read_chunk rest w k (digits w (be_value 0 b) ++ s) ≡ ok (b ++ out)
unfolding read_chunk
read_chunk-digits rest w k b s out h l le e = rw (
  cut-append (digits w (be_value 0 b)) s w (omega (arith, length-digits w (be_value 0 b))),
  chunk_value-digits w (be_value 0 b) (omega (arith, be_value-lt k b h l)),
  e,
  be_bytes-be_value k b h l,
)

chunks-nil : (fuel : ℕ) → chunks fuel [] ≡ ok []
unfolding chunks
chunks-nil zero = refl
chunks-nil (suc fuel) = refl

-- The two kinds of rounds.
pub chunks-long :
    (fuel : ℕ) (s : Bytes) → 7 < length s → chunks (suc fuel) s ≡ read_chunk (chunks fuel) 11 8 s
unfolding chunks
chunks-long fuel [] h = absurd (omega arith)
chunks-long fuel (c ∷ s) h = ground arith

pub chunks-last :
    (fuel : ℕ) (s : Bytes) → length s ≡ 7 → chunks (suc fuel) s ≡ read_chunk (chunks fuel) 7 5 s
unfolding chunks
chunks-last fuel [] h = absurd (omega arith)
chunks-last fuel (c ∷ s) h = ground arith

length-encode_blocks : (k : ℕ) (b : Bytes) → length (encode_blocks k b) ≡ 11 * k + 7
unfolding encode_blocks
length-encode_blocks zero b = length-digits 7 (be_value 0 b)
length-encode_blocks (suc k) b = omega (
  arith,
  length-append {0} (digits 11 (be_value 0 (take 8 b))) (encode_blocks k (drop 8 b)),
  length-digits 11 (be_value 0 (take 8 b)),
  length-encode_blocks k (drop 8 b),
)

encode_blocks-chars : (k : ℕ) (b : Bytes) → All IsBase58Char (encode_blocks k b)
unfolding encode_blocks
encode_blocks-chars zero b = digits-chars 7 (be_value 0 b)
encode_blocks-chars (suc k) b =
    All-append IsBase58Char (digits 11 (be_value 0 (take 8 b))) _
      (digits-chars 11 (be_value 0 (take 8 b))) (encode_blocks-chars k (drop 8 b))

chunks-encode_blocks :
    (fuel k : ℕ) (b : Bytes)
    → k < fuel
    → IsBytes b
    → length b ≡ 8 * k + 5
    → chunks fuel (encode_blocks k b) ≡ ok b
unfolding encode_blocks
chunks-encode_blocks zero k b lt h l = absurd (omega arith)
chunks-encode_blocks (suc fuel) zero b lt h l =
    let s = digits 7 (be_value 0 b) in
    chunks-last fuel s (length-digits 7 (be_value 0 b))
    ∙ ap (read_chunk (chunks fuel) 7 5) (sym (append-nil s))
    ∙ read_chunk-digits (chunks fuel) 7 5 b [] [] h l (omega arith) (chunks-nil fuel)
    ∙ ap ok (append-nil b)
chunks-encode_blocks (suc fuel) (suc k) b lt h l =
    let (hf, hb) =
      All-append_split IsByte (take 8 b) (drop 8 b)
        (subst IsBytes (sym (take-append-drop 8 b)) h) in
    chunks-long fuel _ (
      omega (
        arith,
        length-append {0} (digits 11 (be_value 0 (take 8 b))) (encode_blocks k (drop 8 b)),
        length-digits 11 (be_value 0 (take 8 b)),
      ))
    ∙ read_chunk-digits (chunks fuel) 11 8 (take 8 b) (encode_blocks k (drop 8 b)) (drop 8 b) hf
        (omega (arith, length-take 8 b)) (omega arith)
        (chunks-encode_blocks fuel k (drop 8 b) (omega arith) hb (omega (arith, length-drop 8 b)))
    ∙ ap ok (take-append-drop 8 b)

pub decode_trimmed-chunks :
    (s : Bytes) {b : Bytes} → 0 < length s → chunks (length s) s ≡ ok b → decode_trimmed s ≡ ok b
unfolding decode_trimmed
decode_trimmed-chunks [] h e = absurd (omega arith)
decode_trimmed-chunks (c ∷ s) h e = e

-- Bytes that make `k` blocks of 8 and one of 5, written in base 58, are decoded again.
pub decode_monero_base58-encode_blocks :
    (k : ℕ) (b : Bytes)
    → IsBytes b
    → length b ≡ 8 * k + 5
    → decode_monero_base58 (encode_blocks k b) ≡ ok b
unfolding decode_monero_base58
decode_monero_base58-encode_blocks k b h l =
    let s = encode_blocks k b in
    ap decode_trimmed (trim_space-chars s (encode_blocks-chars k b))
    ∙ decode_trimmed-chunks s (omega (arith, length-encode_blocks k b))
        (chunks-encode_blocks (length s) k b (omega (arith, length-encode_blocks k b)) h l)
