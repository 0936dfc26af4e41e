-- ===== src/Base58/Lengths.antt =====
-- What decodeMoneroBase58 returns by the length of the text.
use go_monero.Base.{
  ℕ, zero, suc, ◌+◌, ◌*◌, ◌/◌, ◌%◌, ◌≤◌, ◌<◌, ◌≡◌, refl, ap, ◌∙◌, sym, [], ◌∷◌, ◌++◌, length, take,
  drop, All, All-append_split, length-append, length-take, length-drop, take-append-drop, arith,
  Result, ok, panic, out_of_range, >>=-eq-ok, Ensures-ok, ◌⊎◌, inl, inr,
}
use mathlib.Core.Path.{subst}
use native.Mathlib.Decide.{dec_lt, ℕ_discrete}
use go_monero.Base.Bytes.{Bytes, cut, cut-append, cut-Ensures}
use go_monero.Base.Space.{trim_space}
use go_monero.Base58.{
  Base58Error, chunk_value, be_bytes, read_chunk, chunks, decode_trimmed, decode_monero_base58,
}
use go_monero.Base58.Trim.{IsBase58Char, trim_space-chars}
use go_monero.Base58.Digits.{length-be_bytes}
use go_monero.Base58.RoundTrip.{chunks-long, chunks-last}

chunk_value-valid :
    (acc : ℕ) (s : Bytes) → All IsBase58Char s → (v : ℕ) × (chunk_value acc s ≡ ok v)
unfolding chunk_value
chunk_value-valid acc [] h = (acc, refl)
chunk_value-valid acc (c ∷ s) ((i, e), h) =
    let (v, ih) = chunk_value-valid (acc * 58 + i) s h in (v, rw (chunk_value, e) ih)

read_chunk-panic :
    (rest : Bytes → Result Base58Error Bytes) (w k : ℕ) (s s' : Bytes)
    → All IsBase58Char s
    → length s ≡ w
    → rest s' ≡ panic out_of_range
    → read_chunk rest w k (s ++ s') ≡ panic out_of_range
unfolding read_chunk
read_chunk-panic rest w k s s' h l e =
    let (v, c) = chunk_value-valid 0 s h in rw (cut-append s s' w (sym l), c, e)

cut-short :
    (rest : Bytes → Result Base58Error Bytes) (w k : ℕ) (s : Bytes)
    → length s < w
    → read_chunk rest w k s ≡ panic out_of_range
unfolding read_chunk cut
cut-short rest w k s h = ground arith

chunks-panic :
    (fuel : ℕ) (s : Bytes)
    → length s ≤ fuel
    → All IsBase58Char s
    → 8 ≤ length s % 11
    → chunks fuel s ≡ panic out_of_range
chunks-panic zero s le h m = absurd (omega arith)
chunks-panic (suc fuel) s le h m = chunks-long fuel s (omega arith) ∙ elim (dec_lt (length s) 11) [
  | yes short ↦ cut-short (chunks fuel) 11 8 s short
  | no long ↦
      let (front, back) =
        All-append_split IsBase58Char (take 11 s) (drop 11 s)
          (subst (All IsBase58Char) (sym (take-append-drop 11 s)) h) in
      ap (read_chunk (chunks fuel) 11 8) (sym (take-append-drop 11 s))
      ∙ read_chunk-panic (chunks fuel) 11 8 (take 11 s) (drop 11 s) front
          (omega (arith, length-take 11 s))
          (chunks-panic fuel (drop 11 s) (omega (arith, length-drop 11 s)) back
            (omega (arith, length-drop 11 s)))
]

decode_trimmed-eq : (s : Bytes) → 0 < length s → decode_trimmed s ≡ chunks (length s) s
unfolding decode_trimmed
decode_trimmed-eq [] h = absurd (omega arith)
decode_trimmed-eq (c ∷ s) h = refl

-- On characters of the alphabet whose number leaves 8, 9 or 10 when divided by 11, the decoder
-- panics: it slices a chunk of 11 characters where fewer are left.
pub decode_monero_base58-out_of_range :
    (s : Bytes)
    → All IsBase58Char s
    → 8 ≤ length s % 11
    → decode_monero_base58 s ≡ panic out_of_range
unfolding decode_monero_base58
decode_monero_base58-out_of_range s h m =
    ap decode_trimmed (trim_space-chars s h)
    ∙ decode_trimmed-eq s (omega arith)
    ∙ chunks-panic (length s) s (omega arith) h m

-- Whole chunks, and perhaps one of 7 characters, for so many bytes.
abbrev pub Sized : ℕ → ℕ → Type 0
Sized chars bytes =
    ((chars % 11 ≡ 0) × (bytes ≡ 8 * (chars / 11)))
    ⊎ ((chars % 11 ≡ 7) × (bytes ≡ 8 * (chars / 11) + 5))

subst2 {κ} : (P : ℕ → ℕ → Type κ) {a a' b b' : ℕ} → a ≡ a' → b ≡ b' → P a b → P a' b'
subst2 P {a' = a'} {b = b} e f p = subst (P a') f (subst (λ (x : ℕ). P x b) e p)

Sized-long : (n b : ℕ) → Sized n b → Sized (11 + n) (8 + b)
Sized-long n b (inl (p, q)) = inl (omega arith, omega arith)
Sized-long n b (inr (p, q)) = inr (omega arith, omega arith)

abbrev ok_length : Result Base58Error Bytes → ℕ
ok_length (ok b) = length b
ok_length _ = 0

read_chunk-eq :
    (rest : Bytes → Result Base58Error Bytes) (w k : ℕ) (s : Bytes) {b : Bytes}
    → read_chunk rest w k s ≡ ok b
    → (s' : Bytes) × (out : Bytes) × (length s ≡ w + length s')
      × (rest s' ≡ ok out)
      × (length b ≡ k + length out)
unfolding read_chunk
read_chunk-eq rest w k s {b} e =
    let ((c, s'), cutting, e1) = >>=-eq-ok (cut w s) _ e in
    let (val, value, e2) = >>=-eq-ok (chunk_value 0 c) _ e1 in
    let (out, r, e3) = >>=-eq-ok (rest s') _ e2 in
    let (whole, l) = Ensures-ok (cut-Ensures w s) cutting in
    (
      s',
      out,
      omega (arith, ap length whole, length-append c s'),
      r,
      sym (ap ok_length e3)
          ∙ length-append (be_bytes k val) out
          ∙ ap (λ (n : ℕ). n + length out) (length-be_bytes k val),
    )

last-Sized : (fuel : ℕ) (s : Bytes) {b : Bytes} → length s ≡ 0 → chunks fuel s ≡ ok b → length b ≡ 0
unfolding chunks
last-Sized zero [] h e = sym (ap ok_length e)
last-Sized (suc fuel) [] h e = sym (ap ok_length e)
last-Sized fuel (c ∷ s) h e = absurd (omega arith)

chunks-Sized :
    (fuel : ℕ) (s : Bytes) {b : Bytes} → chunks fuel s ≡ ok b → Sized (length s) (length b)
unfolding chunks
chunks-Sized zero [] {b} e = inl (refl, last-Sized zero [] refl e)
chunks-Sized zero (c ∷ s) e = cc
chunks-Sized (suc fuel) [] e = inl (refl, last-Sized (suc fuel) [] refl e)
chunks-Sized (suc fuel) (c ∷ s) {b} e = elim (dec_lt 7 (suc (length s))) [
  | yes long ↦
      let (s', out, l, rest, k) =
        read_chunk-eq (chunks fuel) 11 8 (c ∷ s) (sym (chunks-long fuel (c ∷ s) long) ∙ e) in
      subst2 Sized (sym l) (sym k) (Sized-long _ _ (chunks-Sized fuel s' rest))
  | no short ↦ elim (ℕ_discrete (suc (length s)) 7) [
    | yes seven ↦
        let (s', out, l, rest, k) =
          read_chunk-eq (chunks fuel) 7 5 (c ∷ s) (sym (chunks-last fuel (c ∷ s) seven) ∙ e) in
        let none' = last-Sized fuel s' (omega arith) rest in inr (omega arith, omega arith)
    | no other ↦ ground arith
  ]
]

decode_trimmed-Sized :
    (s : Bytes) {b : Bytes} → decode_trimmed s ≡ ok b → Sized (length s) (length b)
unfolding decode_trimmed
decode_trimmed-Sized [] e = cc
decode_trimmed-Sized (c ∷ s) e = chunks-Sized (suc (length s)) (c ∷ s) e

-- Where the decoder accepts a text, the trimmed text is whole chunks of 11 characters, each for 8
-- bytes, and perhaps one more of 7 characters for 5 bytes.
pub decode_monero_base58-Sized :
    (s : Bytes) {b : Bytes}
    → decode_monero_base58 s ≡ ok b
    → Sized (length (trim_space s)) (length b)
unfolding decode_monero_base58
decode_monero_base58-Sized s e = decode_trimmed-Sized (trim_space s) e
