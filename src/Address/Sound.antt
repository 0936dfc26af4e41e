-- ===== src/Address/Sound.antt =====
-- DecodeAddress accepts the bytes of an address and nothing else.
use go_monero.Base.{
  ℕ, zero, suc, ◌+◌, ◌≤◌, ◌≡◌, refl, ap, sym, ◌∙◌, Bool, true, false, [], ◌∷◌, ◌++◌, length, take,
  drop, length-take, length-drop, take-append-drop, arith, Result, ok, >>=-eq-ok, guard, ◌⊎◌, inl,
  inr,
}
use go_monero.Base.Bytes.{Bytes, cut}
use go_monero.Base58.{decode_monero_base58}
use go_monero.Address.{
  AddressError, decoded, equal_loop, equal_bytes, network_byte, is_standard, is_integrated,
  checked_keys, keys_of_bytes, decode_address,
}
use go_monero.Address.Format.{
  Kind, standard, sub, integrated, Address, IsSizedKind, IsSizedAddress, network, id_bytes, body,
  address_bytes,
}

equal_loop→eq : (a b : Bytes) → length a ≡ length b → equal_loop a b ≡ true → a ≡ b
unfolding equal_loop
equal_loop→eq [] [] l e = refl
equal_loop→eq [] (y ∷ b) l e = absurd (omega arith)
equal_loop→eq (x ∷ a) [] l e = absurd (omega arith)
equal_loop→eq (x ∷ a) (y ∷ b) l e = ground (arith, equal_loop→eq a b)

-- EqualBytes compares right.
pub equal_bytes→eq : (a b : Bytes) → equal_bytes a b ≡ true → a ≡ b
unfolding equal_bytes
equal_bytes→eq a b e = ground (arith, equal_loop→eq a b)

drop-nil : (n : ℕ) → drop {A = ℕ} n [] ≡ []
drop-nil zero = refl
drop-nil (suc n) = refl

drop-drop : (j i : ℕ) (xs : Bytes) → drop i (drop j xs) ≡ drop (j + i) xs
drop-drop zero i xs = ap (λ (n : ℕ). drop n xs) (omega arith)
drop-drop (suc j) i [] = drop-nil i ∙ sym (drop-nil (suc j + i))
drop-drop (suc j) i (x ∷ xs) =
    drop-drop j i xs
    ∙ ap (λ (n : ℕ). drop n (x ∷ xs)) {x = suc (j + i)} {y = suc j + i} (omega arith)

take-drop-take :
    (i j n : ℕ) (xs : Bytes) → j + i ≤ n → take i (drop j (take n xs)) ≡ take i (drop j xs)
take-drop-take zero j n xs h = refl
take-drop-take (suc i) zero zero xs h = absurd (omega arith)
take-drop-take (suc i) zero (suc n) [] h = refl
take-drop-take (suc i) zero (suc n) (x ∷ xs) h =
    ap (◌∷◌ x) (take-drop-take i zero n xs (omega arith))
take-drop-take (suc i) (suc j) zero xs h = absurd (omega arith)
take-drop-take (suc i) (suc j) (suc n) [] h = refl
take-drop-take (suc i) (suc j) (suc n) (x ∷ xs) h = take-drop-take (suc i) j n xs (omega arith)

two_keys : (t : Bytes) → t ≡ take 32 (drop 0 t) ++ (take 32 (drop 32 t) ++ drop 64 t)
two_keys t =
    sym (take-append-drop 32 t)
    ∙ ap (λ (r : Bytes). take 32 t ++ r)
        (sym (take-append-drop 32 (drop 32 t))
          ∙ ap (λ (r : Bytes). take 32 (drop 32 t) ++ r) (drop-drop 32 32 t))

-- The bytes behind the network byte, as many as are hashed.
split_keys :
    (b : Bytes) (n : ℕ)
    → 65 ≤ n
    → n + 4 ≡ length b
    → take n b
      ≡ network_byte b ∷ (take 32 (drop 1 b) ++ (take 32 (drop 33 b) ++ drop 65 (take n b)))
unfolding network_byte
split_keys [] n h l = absurd (omega arith)
split_keys (x ∷ b) zero h l = absurd (omega arith)
split_keys (x ∷ b) (suc n) h l = ap (◌∷◌ x) (
    two_keys (take n b)
    ∙ ap (λ (r : Bytes). r ++ (take 32 (drop 32 (take n b)) ++ drop 64 (take n b)))
        (take-drop-take 32 0 n b (omega arith))
    ∙ ap (λ (r : Bytes). take 32 b ++ (r ++ drop 64 (take n b)))
        (take-drop-take 32 32 n b (omega arith)))

decoded-eq : (s : Bytes) {b : Bytes} → decoded s ≡ ok b → decode_monero_base58 s ≡ ok b
unfolding decoded
decoded-eq s e = ground arith

take_all : (n : ℕ) (b : Bytes) → length b ≡ n → take n b ≡ b
take_all zero [] h = refl
take_all zero (x ∷ b) h = absurd (omega arith)
take_all (suc n) [] h = refl
take_all (suc n) (x ∷ b) h = ap (◌∷◌ x) (take_all n b (omega arith))

ok_value :
    {a b : Bytes × Bytes} → ◌≡◌ {A = Result AddressError (Bytes × Bytes)} (ok a) (ok b) → a ≡ b
ok_value e = cc

cut_value :
    (n : ℕ) (b : Bytes) {c : Bytes × Bytes} → cut {E = AddressError} n b ≡ ok c → take n b ≡ c.0
unfolding cut
cut_value n b e = ground arith

guard-true : (t : Bool) (e : AddressError) {u : Unit {0}} → guard t e ≡ ok u → t ≡ true
guard-true true e h = refl
guard-true false e h = cc

checked_keys-eq :
    (keccak256 : Bytes → Bytes) (n : ℕ) (b : Bytes) {keys : Bytes × Bytes}
    → n + 4 ≡ length b
    → checked_keys keccak256 n b ≡ ok keys
    → (drop n b ≡ take 4 (keccak256 (take n b)))
      × ((take 32 (drop 1 b), take 32 (drop 33 b)) ≡ keys)
unfolding checked_keys
checked_keys-eq keccak256 n b l e =
    let ((sum, r), cutting, e1) = >>=-eq-ok (cut 4 (keccak256 (take n b))) _ e in
    let (u, same, e2) =
      >>=-eq-ok (guard (equal_bytes sum (take 4 (drop n b))) AddressError.checksum_mismatch) _ e1 in
    (
      sym (
          cut_value 4 (keccak256 (take n b)) cutting
          ∙ equal_bytes→eq sum (take 4 (drop n b)) (guard-true _ _ same)
          ∙ take_all 4 (drop n b) (omega (arith, length-drop n b))),
      ok_value e2,
    )

-- The bytes of a well-formed address that the text stands for, and its keys.
abbrev Reads : (Bytes → Bytes) → Bytes → Bytes × Bytes → Address → Type 0
Reads keccak256 b keys a =
    IsSizedAddress a × (address_bytes keccak256 a ≡ b) × ((a.spend, a.view) ≡ keys)

checked_keys-Reads :
    (keccak256 : Bytes → Bytes) (n : ℕ) (k : Kind) (b : Bytes) {keys : Bytes × Bytes}
    → 65 ≤ n
    → n + 4 ≡ length b
    → network_byte b ≡ network k
    → drop 65 (take n b) ≡ id_bytes k
    → IsSizedKind k
    → checked_keys keccak256 n b ≡ ok keys
    → (a : Address) × Reads keccak256 b keys a
unfolding address_bytes
checked_keys-Reads keccak256 n k b le l e i sized h =
    let a : Address = record { kind = k; spend = take 32 (drop 1 b); view = take 32 (drop 33 b) } in
    let (sum, keys) = checked_keys-eq keccak256 n b l h in
    let front : body a ≡ take n b =
      ap (λ (m : ℕ). m ∷ (a.spend ++ (a.view ++ id_bytes k))) (sym e)
      ∙ ap (λ (r : Bytes). network_byte b ∷ (a.spend ++ (a.view ++ r))) (sym i)
      ∙ sym (split_keys b n le l) in
    (
      a,
      (
        record {
          kind_sized = sized;
          spend_32 = omega (arith, length-take 32 (drop 1 b), length-drop 1 b);
          view_32 = omega (arith, length-take 32 (drop 33 b), length-drop 33 b);
        },
        ap (λ (f : Bytes). f ++ take 4 (keccak256 f)) front
            ∙ ap (λ (r : Bytes). take n b ++ r) (sym sum)
            ∙ take-append-drop n b,
        keys,
      ),
    )

drop_all : (n : ℕ) (b : Bytes) → length b ≤ n → drop n b ≡ []
drop_all n [] h = drop-nil n
drop_all zero (x ∷ b) h = absurd (omega arith)
drop_all (suc n) (x ∷ b) h = drop_all n b (omega arith)

-- The tests that the code makes before it looks at the checksum.
keys_of_bytes-cases :
    (keccak256 : Bytes → Bytes) (b : Bytes) {keys : Bytes × Bytes}
    → keys_of_bytes keccak256 b ≡ ok keys
    → ((length b ≡ 69)
        × ((network_byte b ≡ 0x12) ⊎ (network_byte b ≡ 0x2A))
        × (checked_keys keccak256 65 b ≡ ok keys))
      ⊎ ((length b ≡ 77) × (network_byte b ≡ 0x13) × (checked_keys keccak256 73 b ≡ ok keys))
unfolding keys_of_bytes is_standard is_integrated
keys_of_bytes-cases keccak256 b e = ground arith

keys_of_bytes-Reads :
    (keccak256 : Bytes → Bytes) (b : Bytes) {keys : Bytes × Bytes}
    → keys_of_bytes keccak256 b ≡ ok keys
    → (a : Address) × Reads keccak256 b keys a
keys_of_bytes-Reads keccak256 b e = elim (keys_of_bytes-cases keccak256 b e) [
  | inl (l, inl n, h) ↦
      checked_keys-Reads keccak256 65 standard b (omega arith) (omega arith) n
        (drop_all 65 (take 65 b) (omega (arith, length-take 65 b))) tt h
  | inl (l, inr n, h) ↦
      checked_keys-Reads keccak256 65 sub b (omega arith) (omega arith) n
        (drop_all 65 (take 65 b) (omega (arith, length-take 65 b))) tt h
  | inr (l, n, h) ↦
      checked_keys-Reads keccak256 73 (integrated (drop 65 (take 73 b))) b (omega arith)
        (omega arith) n refl (omega (arith, length-drop 65 (take 73 b), length-take 73 b)) h
]

-- Where DecodeAddress returns two keys, they are 32 bytes each, and the text decodes to the bytes of
-- an address with these keys: the network byte of a known kind, the spend key, the view key, in an
-- integrated address a payment id of 8 bytes, and the checksum that these bytes hash to.
pub decode_address_sound :
    (keccak256 : Bytes → Bytes) (s : Bytes) (keys : Bytes × Bytes)
    → decode_address keccak256 s ≡ ok keys
    → (a : Address) × IsSizedAddress a
      × (decode_monero_base58 s ≡ ok (address_bytes keccak256 a))
      × ((a.spend, a.view) ≡ keys)
unfolding decode_address
decode_address_sound keccak256 s keys e =
    let (b, d, h) = >>=-eq-ok (decoded s) (keys_of_bytes keccak256) e in
    let (a, (sized, bytes, found)) = keys_of_bytes-Reads keccak256 b h in
    (a, sized, decoded-eq s d ∙ ap ok (sym bytes), found)
