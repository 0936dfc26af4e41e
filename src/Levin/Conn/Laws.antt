-- ===== src/Levin/Conn/Laws.antt =====
-- Reads and writes of whole messages on a connection.
use go_monero.Base.{
  ℕ, zero, suc, ◌-◌, ◌≤◌, ◌≡◌, refl, sym, ap, ◌∙◌, true, some, List, [], ◌∷◌, ◌++◌, length, take,
  arith, append-nil, take-append, drop-append, length-append,
}
use go_monero.Base.Bytes.{Bytes}
use go_monero.Levin.Conn.{Conn, write, read_full}

module _ {ℓ} {A : Type ℓ} where
  pub take_all : (n : ℕ) (xs : List A) → length xs ≤ n → take n xs ≡ xs
  take_all zero [] h = refl
  take_all zero (x ∷ xs) h = absurd (omega arith)
  take_all (suc n) [] h = refl
  take_all (suc n) (x ∷ xs) h = ap (◌∷◌ x) (take_all n xs (omega arith))

  pub take_within : (n : ℕ) (xs ys : List A) → n ≤ length xs → take n (xs ++ ys) ≡ take n xs
  take_within zero xs ys h = refl
  take_within (suc n) [] ys h = absurd (omega arith)
  take_within (suc n) (x ∷ xs) ys h = ap (◌∷◌ x) (take_within n xs ys (omega arith))

  pub take_beyond :
      (n : ℕ) (xs ys : List A) → length xs ≤ n → take n (xs ++ ys) ≡ xs ++ take (n - length xs) ys
  take_beyond n [] ys h = let e : n ≡ n - 0 = omega arith in ap (λ (t : ℕ). take t ys) e
  take_beyond zero (x ∷ xs) ys h = absurd (omega arith)
  take_beyond (suc n) (x ∷ xs) ys h =
      let e : n - length xs ≡ suc n - suc (length xs) = omega arith in
      ap (◌∷◌ x) (take_beyond n xs ys (omega arith) ∙ ap (λ (t : ℕ). xs ++ take t ys) e)

  -- An empty list in the place of any part of it.
  pub take_empty : (n : ℕ) (front xs : List A) → length xs ≡ 0 → front ++ take n xs ≡ front
  take_empty n front [] h =
      ap (λ (t : List A). front ++ t) (take_all n [] (omega arith)) ∙ append-nil front
  take_empty n front (x ∷ xs) h = absurd (omega arith)

-- A read of as many bytes as stand in front.
pub read_full-front :
    (n : ℕ) (front rest : Bytes) (c : Conn)
    → length front ≡ n
    → read_full n (record c { incoming = front ++ rest })
      ≡ (some front, record c { incoming = rest })
unfolding read_full
read_full-front n front rest c e =
    ap (λ (k : ℕ). read_full k (record c { incoming = front ++ rest })) (sym e)
    ∙ rw (take-append front rest, drop-append front rest) (ground (arith, length-append front rest))

-- A write that fits.
pub write-room :
    (b : Bytes) (c : Conn)
    → length b ≤ c.room
    → write b c ≡ (true, record c { outgoing = c.outgoing ++ b; room = c.room - length b })
unfolding write
write-room b c fits = rw (take_all c.room b fits) (ground arith)
