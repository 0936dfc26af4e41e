-- ===== src/Address/RoundTrip.antt =====
-- DecodeAddress, ExtractPaymentID and IsSubAddress on the text of an address.
use go_monero.Base.{
  ℕ, ◌+◌, ◌*◌, ◌≤◌, ◌≡◌, refl, ap, sym, ◌∙◌, true, some, [], ◌∷◌, ◌++◌, length, take, drop,
  All-append, length-append, length-take, take-append, drop-append, take-append-drop,
  All-append_split, append_assoc, append-nil, arith, Result, ok, ◌>>=◌,
}
use mathlib.Core.Path.{subst}
use go_monero.Base.Bytes.{Bytes, IsByte, IsBytes, cut}
use go_monero.Base58.{decode_monero_base58}
use go_monero.Base58.RoundTrip.{decode_monero_base58-encode_blocks}
use go_monero.Address.{
  AddressError, decoded, equal_loop, equal_bytes, network_byte, is_standard, is_integrated,
  checked_keys, keys_of_bytes, decode_address, payment_id_of, extract_payment_id, has_sub_byte,
  is_sub_address,
}
use go_monero.Address.Format.{
  Kind, standard, sub, integrated, Address, IsKey, IsKind, IsAddress, network, payment_id, is_sub,
  id_bytes, body, address_bytes, blocks, address_text, IsHash,
}

equal_loop_refl : (a : Bytes) → equal_loop a a ≡ true
unfolding equal_loop
equal_loop_refl [] = refl
equal_loop_refl (x ∷ a) = ground (arith, equal_loop_refl a)

pub equal_bytes_refl : (a : Bytes) → equal_bytes a a ≡ true
unfolding equal_bytes
equal_bytes_refl a = ground (arith, equal_loop_refl a)

-- What stands behind a front of a known length.
drop_front : (n : ℕ) (xs ys : Bytes) → length xs ≡ n → drop n (xs ++ ys) ≡ ys
drop_front n xs ys h = ap (λ (k : ℕ). drop k (xs ++ ys)) (sym h) ∙ drop-append xs ys

take_front : (n : ℕ) (xs ys : Bytes) → length xs ≡ n → take n (xs ++ ys) ≡ xs
take_front n xs ys h = ap (λ (k : ℕ). take k (xs ++ ys)) (sym h) ∙ take-append xs ys

cut_four : (h : Bytes) → 4 ≤ length h → cut {E = AddressError} 4 h ≡ ok (take 4 h, drop 4 h)
unfolding cut
cut_four h le = ground arith

network-IsByte : (k : Kind) → IsByte (network k)
network-IsByte standard = omega arith
network-IsByte sub = omega arith
network-IsByte (integrated pid) = omega arith

id-IsBytes : (k : Kind) → IsKind k → IsBytes (id_bytes k)
id-IsBytes standard h = tt
id-IsBytes sub h = tt
id-IsBytes (integrated pid) h = h.0

take-IsBytes : (n : ℕ) (b : Bytes) → IsBytes b → IsBytes (take n b)
take-IsBytes n b h =
    (All-append_split IsByte (take n b) (drop n b) (subst IsBytes (sym (take-append-drop n b)) h)).0

id_blocks : (k : Kind) → IsKind k → 65 + length (id_bytes k) + 4 ≡ 8 * blocks k + 5
id_blocks standard h = refl
id_blocks sub h = refl
id_blocks (integrated pid) h = omega (arith, h.1)

-- The branch that the code takes for the bytes of an address, by its kind.
keys_of_bytes-kind :
    (keccak256 : Bytes → Bytes) (k : Kind) (b : Bytes)
    → IsKind k
    → network_byte b ≡ network k
    → length b ≡ 65 + length (id_bytes k) + 4
    → keys_of_bytes keccak256 b ≡ checked_keys keccak256 (65 + length (id_bytes k)) b
unfolding keys_of_bytes is_standard is_integrated
keys_of_bytes-kind keccak256 standard b h e l = ground arith
keys_of_bytes-kind keccak256 sub b h e l = ground arith
keys_of_bytes-kind keccak256 (integrated pid) b (h, i) e l =
    integrated_branch ∙ ap (λ (n : ℕ). checked_keys keccak256 n b) (omega (arith, i))
  where
    integrated_branch : keys_of_bytes keccak256 b ≡ checked_keys keccak256 73 b
    integrated_branch = ground (arith, i)

payment_id_of-kind :
    (k : Kind) (b : Bytes)
    → IsKind k
    → network_byte b ≡ network k
    → length b ≡ 65 + length (id_bytes k) + 4
    → take (length (id_bytes k)) (drop 65 b) ≡ id_bytes k
    → payment_id_of b ≡ ok (payment_id k)
unfolding payment_id_of is_integrated
payment_id_of-kind standard b h e l t = ground arith
payment_id_of-kind sub b h e l t = ground arith
payment_id_of-kind (integrated pid) b (h, i) e l t =
    integrated_branch
    ∙ ap (λ (n : ℕ). ok (some (take n (drop 65 b)))) (sym i)
    ∙ ap (λ (p : Bytes). ok (some p)) t
  where
    integrated_branch : payment_id_of b ≡ ok (some (take 8 (drop 65 b)))
    integrated_branch = ground (arith, i)

has_sub_byte-kind :
    (k : Kind) (b : Bytes) → network_byte b ≡ network k → 69 ≤ length b → has_sub_byte b ≡ is_sub k
unfolding has_sub_byte
has_sub_byte-kind standard b e l = ground arith
has_sub_byte-kind sub b e l = ground arith
has_sub_byte-kind (integrated pid) b e l = ground arith

of_decoded {ℓ} :
    {A : Type ℓ} (s : Bytes) (f : Bytes → Result AddressError A) {b : Bytes}
    → decode_monero_base58 s ≡ ok b
    → (decoded s >>= f) ≡ f b
unfolding decoded
of_decoded s f e = rw (decoded, e)

is_sub_address-ok :
    (s : Bytes) {b : Bytes} → decode_monero_base58 s ≡ ok b → is_sub_address s ≡ ok (has_sub_byte b)
unfolding is_sub_address
is_sub_address-ok s e = rw (is_sub_address, e)

-- An address of one kind, as its bytes.
module _ (keccak256 : Bytes → Bytes) (hash : IsHash keccak256) (k : Kind) (spend view : Bytes)
    (is_kind : IsKind k) (is_spend : IsKey spend) (is_view : IsKey view) where
  abbrev a : Address
  a = record { kind = k; spend = spend; view = view }

  abbrev sum : Bytes
  sum = take 4 (keccak256 (body a))

  abbrev n : ℕ
  n = 65 + length (id_bytes k)

  length-sum : length sum ≡ 4
  length-sum = omega (arith, length-take 4 (keccak256 (body a)), (hash (body a)).length_32)

  length-body : length (body a) ≡ n
  length-body = omega (
    arith,
    length-append {0} spend (view ++ id_bytes k),
    length-append {0} view (id_bytes k),
    is_spend.length_32,
    is_view.length_32,
  )

  length-address_bytes : length (body a ++ sum) ≡ n + 4
  length-address_bytes = omega (arith, length-append (body a) sum, length-body, length-sum)

  sum_found : take 4 (drop n (body a ++ sum)) ≡ sum
  sum_found =
      ap (take 4) (drop_front n (body a) sum length-body ∙ sym (append-nil sum))
      ∙ take_front 4 sum [] length-sum

  spend_found : take 32 (drop 1 (body a ++ sum)) ≡ spend
  spend_found =
      ap (take 32) (append_assoc spend (view ++ id_bytes k) sum)
      ∙ take_front 32 spend ((view ++ id_bytes k) ++ sum) is_spend.length_32

  view_found : take 32 (drop 33 (body a ++ sum)) ≡ view
  view_found =
      ap (λ (b : Bytes). take 32 (drop 32 b)) (append_assoc spend (view ++ id_bytes k) sum)
      ∙ ap (take 32) (
          drop_front 32 spend ((view ++ id_bytes k) ++ sum) is_spend.length_32
          ∙ append_assoc view (id_bytes k) sum)
      ∙ take_front 32 view (id_bytes k ++ sum) is_view.length_32

  checked_keys-body : checked_keys keccak256 n (body a ++ sum) ≡ ok (spend, view)
  unfolding checked_keys
  checked_keys-body = rw (
    take_front n (body a) sum length-body,
    cut_four (keccak256 (body a)) (omega (arith, (hash (body a)).length_32)),
    sum_found,
    equal_bytes_refl sum,
    spend_found,
    view_found,
  )

  id_found : take (length (id_bytes k)) (drop 65 (body a ++ sum)) ≡ id_bytes k
  id_found =
      ap (λ (b : Bytes). take (length (id_bytes k)) (drop 64 b))
        (append_assoc spend (view ++ id_bytes k) sum
          ∙ ap (λ (t : Bytes). spend ++ t) (append_assoc view (id_bytes k) sum)
          ∙ sym (append_assoc spend view (id_bytes k ++ sum)))
      ∙ ap (take (length (id_bytes k))) (
          drop_front 64 (spend ++ view) (id_bytes k ++ sum)
            (omega (arith, length-append {0} spend view, is_spend.length_32, is_view.length_32)))
      ∙ take-append (id_bytes k) sum

  whole-IsBytes : IsBytes (body a ++ sum)
  whole-IsBytes = (
    network-IsByte k,
    All-append IsByte (spend ++ (view ++ id_bytes k)) sum
        (All-append IsByte spend (view ++ id_bytes k) is_spend.bytes
          (All-append IsByte view (id_bytes k) is_view.bytes (id-IsBytes k is_kind)))
        (take-IsBytes 4 (keccak256 (body a)) (hash (body a)).bytes),
  )

  text_decoded : decode_monero_base58 (address_text keccak256 a) ≡ ok (body a ++ sum)
  unfolding address_text address_bytes
  text_decoded =
      decode_monero_base58-encode_blocks (blocks k) (body a ++ sum) whole-IsBytes
        (length-address_bytes ∙ id_blocks k is_kind)

  address_decoded :
      (decode_address keccak256 (address_text keccak256 a) ≡ ok (spend, view))
      × (extract_payment_id (address_text keccak256 a) ≡ ok (payment_id k))
      × (is_sub_address (address_text keccak256 a) ≡ ok (is_sub k))
  unfolding decode_address extract_payment_id network_byte
  address_decoded =
      let b = body a ++ sum in
      (
        of_decoded (address_text keccak256 a) (keys_of_bytes keccak256) text_decoded
            ∙ keys_of_bytes-kind keccak256 k b is_kind refl length-address_bytes
            ∙ checked_keys-body,
        of_decoded (address_text keccak256 a) payment_id_of text_decoded
            ∙ payment_id_of-kind k b is_kind refl length-address_bytes id_found,
        is_sub_address-ok (address_text keccak256 a) text_decoded
            ∙ ap ok (has_sub_byte-kind k b refl (omega (arith, length-address_bytes))),
      )

-- DecodeAddress, ExtractPaymentID and IsSubAddress read the text of an address right: the two
-- keys, the payment id of an integrated address and none of another, and whether it is a
-- subaddress.
pub decode_address-address_text :
    (keccak256 : Bytes → Bytes) (a : Address)
    → IsHash keccak256
    → IsAddress a
    → (decode_address keccak256 (address_text keccak256 a) ≡ ok (a.spend, a.view))
      × (extract_payment_id (address_text keccak256 a) ≡ ok (payment_id a.kind))
      × (is_sub_address (address_text keccak256 a) ≡ ok (is_sub a.kind))
decode_address-address_text keccak256 a hash w =
    address_decoded keccak256 hash a.kind a.spend a.view w.is_kind w.is_spend w.is_view
