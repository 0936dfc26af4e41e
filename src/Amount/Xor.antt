-- ===== src/Amount/Xor.antt =====
-- The loop that decrypts an amount reads the little-endian number of what the mask uncovers.
use go_monero.Base.{
  ℕ, zero, suc, ◌+◌, ◌*◌, ◌^◌, ◌<◌, ◌≡◌, ap, sym, ◌∙◌, [], ◌∷◌, length, arith, bit_or, bit_xor,
  Result, ok, >>=-eq-ok,
}
use mathlib.Core.Path.{subst}
use native.Mathlib.Numerals.{towards_suc}
use go_monero.Base.Bits.{bit_xor_twice, bit_or_disjoint}
use go_monero.Base.Bytes.{Bytes, IsBytes, le_value}
use go_monero.Secret.{KeyError}
use go_monero.PaymentId.{xor_bytes}
use go_monero.Amount.{amount_loop}

pow-add-eight : (s : ℕ) → 2 ^ (s + 8) ≡ 256 * 2 ^ s
pow-add-eight s = simp towards_suc (omega arith)

ok_value : {a b : Bytes} → ◌≡◌ {A = Result KeyError Bytes} (ok a) (ok b) → a ≡ b
ok_value e = cc

-- One byte more, of the weight `w`.
weighted : (amount w b rest : ℕ) → (amount + b * w) + 256 * w * rest ≡ amount + w * (b + 256 * rest)
weighted amount w b rest = grind arith

below : (amount w b : ℕ) → amount < w → b < 256 → amount + b * w < 256 * w
below amount w b h k = grind arith

-- Where the same mask turns `p` into `a`, the loop over `a` reads `p`.
pub amount_loop-value :
    (n shift amount : ℕ) (p a m : Bytes)
    → amount < 2 ^ shift
    → IsBytes p
    → length p ≡ n
    → xor_bytes n p m ≡ ok a
    → amount_loop n shift amount a m ≡ ok (amount + 2 ^ shift * le_value p)
unfolding amount_loop xor_bytes le_value
amount_loop-value zero shift amount [] a m lt h l e = ap ok (grind arith)
amount_loop-value zero shift amount (b ∷ p) a m lt h l e = absurd (omega arith)
amount_loop-value (suc n) shift amount [] a m lt h l e = absurd (omega arith)
amount_loop-value (suc n) shift amount (b ∷ p) a [] lt h l e = cc
amount_loop-value (suc n) shift amount (b ∷ p) a (y ∷ m) lt (hb, h) l e =
    let (rest, e', tail) = >>=-eq-ok (xor_bytes n p m) _ e in
    let amount' = amount + b * 2 ^ shift in
    let masked : bit_or amount (bit_xor (bit_xor b y) y * 2 ^ shift) ≡ amount' =
      ap (λ (x : ℕ). bit_or amount (x * 2 ^ shift)) (bit_xor_twice b y)
      ∙ bit_or_disjoint shift amount b lt in
    subst
      (λ (a' : Bytes).
        amount_loop (suc n) shift amount a' (y ∷ m)
        ≡ ok (amount + 2 ^ shift * (b + 256 * le_value p)))
      (ok_value tail)
      (ap (λ (t : ℕ). amount_loop n (shift + 8) t rest m) masked
        ∙ amount_loop-value n (shift + 8) amount' p rest m
            (subst (λ (t : ℕ). amount' < t) (sym (pow-add-eight shift))
              (below amount (2 ^ shift) b lt hb))
            h (omega arith) e'
        ∙ ap ok (
            ap (λ (t : ℕ). amount' + t * le_value p) (pow-add-eight shift)
            ∙ weighted amount (2 ^ shift) b (le_value p)))
