-- ===== src/Extra/RoundTrip.antt =====
-- ParseTxExtra on what CalcExtra writes.
use go_monero.Base.{
  ℕ, suc, ◌+◌, length-append, ◌≡◌, refl, ap, ◌∙◌, Bool, true, false, none, some, [], ◌∷◌, ◌++◌,
  length, take, drop, take-append, drop-append, append-nil, sym, ltb, leb, if◌then◌else◌, arith,
  Result, ok, ◌>>=◌,
}
use go_monero.Base.Bytes.{Bytes}
use go_monero.Extra.{
  ExtraError, Extra, Next, stop, continue, read_pubkey, read_payment_id, read_nonce_field,
  read_extra_field, parse_extra_loop, no_extra, parse_tx_extra, extra_bytes,
}

if-true {ℓ} : {A : Type ℓ} (b : Bool) (x y : A) → b ≡ true → (if b then x else y) ≡ x
if-true true x y h = refl
if-true false x y h = cc

if-false {ℓ} : {A : Type ℓ} (b : Bool) (x y : A) → b ≡ false → (if b then x else y) ≡ y
if-false true x y h = cc
if-false false x y h = refl

take_front : (n : ℕ) (b c : Bytes) → length b ≡ n → take n (b ++ c) ≡ b
take_front n b c h = ap (λ (k : ℕ). take k (b ++ c)) (sym h) ∙ take-append b c

drop_front : (n : ℕ) (b c : Bytes) → length b ≡ n → drop n (b ++ c) ≡ c
drop_front n b c h = ap (λ (k : ℕ). drop k (b ++ c)) (sym h) ∙ drop-append b c

take_all : (n : ℕ) (b : Bytes) → length b ≡ n → take n b ≡ b
take_all n b h = ap (take n) (sym (append-nil b)) ∙ take_front n b [] h

drop_all : (n : ℕ) (b : Bytes) → length b ≡ n → drop n b ≡ []
drop_all n b h = ap (drop n) (sym (append-nil b)) ∙ drop_front n b [] h

abbrev found : Extra → Bytes → Result ExtraError Next
found e rest = ok (continue e rest)

with_key :
    (e : Extra) (k k' r r' : Bytes)
    → k ≡ k'
    → r ≡ r'
    → found (record e { tx_pub_key = some k }) r ≡ found (record e { tx_pub_key = some k' }) r'
with_key e k k' r r' h h' =
    ap (λ (b : Bytes). found (record e { tx_pub_key = some b }) r) h
    ∙ ap (λ (b : Bytes). found (record e { tx_pub_key = some k' }) b) h'

read_pubkey-append :
    (e : Extra) (key rest : Bytes)
    → length key ≡ 32
    → read_pubkey e (key ++ rest) ≡ found (record e { tx_pub_key = some key }) rest
unfolding read_pubkey
read_pubkey-append e key rest h =
    if-false (ltb (length (key ++ rest)) 32) _ _ (ground (arith, length-append key rest))
    ∙ with_key e (take 32 (key ++ rest)) key (drop 32 (key ++ rest)) rest (take_front 32 key rest h)
        (drop_front 32 key rest h)

read_payment_id-enc :
    (e : Extra) (value : Bytes)
    → length value ≡ 8
    → read_payment_id e (0x01 ∷ value) ≡ record e { enc_pid = some value }
unfolding read_payment_id
read_payment_id-enc e value h =
    if-true (leb 8 (length value)) _ _ (ground arith)
    ∙ ap (λ (b : Bytes). record e { enc_pid = some b }) (take_all 8 value h)

read_nonce_field-enc :
    (e : Extra) (value : Bytes)
    → length value ≡ 8
    → read_nonce_field e (0x09 ∷ 0x01 ∷ value) ≡ found (record e { enc_pid = some value }) []
unfolding read_nonce_field
read_nonce_field-enc e value h =
    if-false (ltb (suc (length value)) 9) _ _ (ground arith)
    ∙ ap (λ (b : Bytes). found (read_payment_id e (0x01 ∷ b)) (drop 8 value)) (take_all 8 value h)
    ∙ ap (λ (x : Extra). found x (drop 8 value)) (read_payment_id-enc e value h)
    ∙ ap (λ (b : Bytes). found (record e { enc_pid = some value }) b) (drop_all 8 value h)

parse_extra_loop-pubkey :
    (fuel : ℕ) (e : Extra) (key rest : Bytes)
    → length key ≡ 32
    → parse_extra_loop (suc fuel) e (0x01 ∷ key ++ rest)
      ≡ parse_extra_loop fuel (record e { tx_pub_key = some key }) rest
unfolding parse_extra_loop read_extra_field
parse_extra_loop-pubkey fuel e key rest h =
    ap
      (λ (r : Result ExtraError Next). r >>= λ next. elim next [
        | stop e' ↦ ok e'
        | continue e' rest' ↦ parse_extra_loop fuel e' rest'
      ])
      (read_pubkey-append e key rest h)

parse_extra_loop-enc :
    (fuel : ℕ) (e : Extra) (value : Bytes)
    → length value ≡ 8
    → parse_extra_loop (suc fuel) e (0x02 ∷ 0x09 ∷ 0x01 ∷ value)
      ≡ ok (record e { enc_pid = some value })
unfolding parse_extra_loop read_extra_field
parse_extra_loop-enc fuel e value h =
    ap
      (λ (r : Result ExtraError Next). r >>= λ next. elim next [
        | stop e' ↦ ok e'
        | continue e' rest' ↦ parse_extra_loop fuel e' rest'
      ])
      (read_nonce_field-enc e value h)

-- The extra field that CalcExtra writes for a public key of 32 bytes and an encrypted payment id
-- of 8 is parsed back by ParseTxExtra: it finds this key and this id, and nothing else.
pub parse_tx_extra-extra_bytes :
    (public_key encrypted_payment_id : Bytes)
    → length public_key ≡ 32
    → length encrypted_payment_id ≡ 8
    → parse_tx_extra (extra_bytes public_key encrypted_payment_id)
      ≡ ok (record {
        tx_pub_key = some public_key;
        additional_keys = [];
        pid = none;
        enc_pid = some encrypted_payment_id;
      })
unfolding parse_tx_extra extra_bytes
parse_tx_extra-extra_bytes public_key encrypted_payment_id h k =
    let rest = 0x02 ∷ 0x09 ∷ 0x01 ∷ encrypted_payment_id in
    ap (λ (n : ℕ). parse_extra_loop (suc n) no_extra (0x01 ∷ public_key ++ rest))
      (length-append public_key rest ∙ (omega arith))
    ∙ parse_extra_loop-pubkey (suc (34 + length encrypted_payment_id)) no_extra public_key rest h
    ∙ parse_extra_loop-enc (34 + length encrypted_payment_id)
        (record no_extra { tx_pub_key = some public_key }) encrypted_payment_id k
