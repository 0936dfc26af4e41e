-- ===== src/Extra/Sizes.antt =====
-- ParseTxExtra returns, and what it finds has the size it should have.
use go_monero.Base.{
  ℕ, zero, suc, ◌*◌, ◌/◌, ◌%◌, ◌≤◌, ◌≡◌, Bool, true, false, Option, none, some, [], ◌∷◌, length,
  take, drop, length-take, length-drop, All, All-append, ltb, leb, ◌==◌, if-elim, ◌&&◌, arith, ok,
  Answers, answered, refused, Answers-bind, Answers-if,
}
use go_monero.Base.Bytes.{Bytes}
use go_monero.Extra.{
  Extra, Next, stop, continue, read_pubkey, read_payment_id, read_nonce_field, keys_of,
  read_additional_keys, read_extra_field, parse_extra_loop, no_extra, parse_tx_extra,
}

-- Nothing, or bytes of this number.
unfoldable pub IsSized : ℕ → Option Bytes → Type 0
IsSized n none = Unit {0}
IsSized n (some b) = length b ≡ n

-- The sizes of what was found.
pub record IsExtra (e : Extra) : Type 0 where
  pub key_32 : IsSized 32 (Extra.tx_pub_key e)
  pub keys_32 : All (λ k. length k ≡ 32) (Extra.additional_keys e)
  pub pid_32 : IsSized 32 (Extra.pid e)
  pub enc_pid_8 : IsSized 8 (Extra.enc_pid e)

-- What a round leaves is well-formed and no longer than what it was given.
abbrev IsNext : ℕ → Next → Type 0
IsNext n (stop e) = IsExtra e
IsNext n (continue e rest) = IsExtra e × (length rest ≤ n)

read_pubkey-IsNext :
    (e : Extra) (rest : Bytes) → IsExtra e → Answers (IsNext (length rest)) (read_pubkey e rest)
unfolding read_pubkey IsSized
read_pubkey-IsNext e rest w =
    Answers-if (ltb (length rest) 32) (λ _. refused)
      λ h. answered (
        record {
          key_32 = ground (arith, length-take 32 rest);
          keys_32 = IsExtra.keys_32 w;
          pid_32 = IsExtra.pid_32 w;
          enc_pid_8 = IsExtra.enc_pid_8 w;
        },
        omega (arith, length-drop 32 rest),
      )

length-take_le : (n : ℕ) (value : Bytes) → leb n (length value) ≡ true → length (take n value) ≡ n
length-take_le n value h = ground (arith, length-take n value)

&&_right : (b c : Bool) → (b && c) ≡ true → c ≡ true
&&_right true c h = h
&&_right false c h = cc

read_payment_id-IsExtra :
    (e : Extra) (nonce : Bytes) → IsExtra e → IsExtra (read_payment_id e nonce)
unfolding read_payment_id IsSized
read_payment_id-IsExtra e [] w = w
read_payment_id-IsExtra e (kind ∷ value) w =
    if-elim IsExtra (kind == 0)
      (λ _.
        if-elim IsExtra (leb 32 (length value))
          (λ h. record {
            key_32 = IsExtra.key_32 w;
            keys_32 = IsExtra.keys_32 w;
            pid_32 = length-take_le 32 value h;
            enc_pid_8 = IsExtra.enc_pid_8 w;
          })
          (λ _. w))
      (λ _.
        if-elim IsExtra ((kind == 1) && leb 8 (length value))
          (λ h. record {
            key_32 = IsExtra.key_32 w;
            keys_32 = IsExtra.keys_32 w;
            pid_32 = IsExtra.pid_32 w;
            enc_pid_8 = length-take_le 8 value (&&_right (kind == 1) (leb 8 (length value)) h);
          })
          (λ _. w))

read_nonce_field-IsNext :
    (e : Extra) (rest : Bytes)
    → IsExtra e
    → Answers (IsNext (length rest)) (read_nonce_field e rest)
unfolding read_nonce_field
read_nonce_field-IsNext e [] w = refused
read_nonce_field-IsNext e (l ∷ rest) w =
    Answers-if (ltb (length rest) l) (λ _. refused)
      λ h. answered (read_payment_id-IsExtra e (take l rest) w, omega (arith, length-drop l rest))

keys_of-All :
    (count : ℕ) (rest : Bytes)
    → count * 32 ≤ length rest
    → All (λ k. length k ≡ 32) (keys_of count rest)
unfolding keys_of
keys_of-All zero rest h = tt
keys_of-All (suc count) rest h = (
  omega (arith, length-take 32 rest),
  keys_of-All count (drop 32 rest) (omega (arith, length-drop 32 rest)),
)

read_additional_keys-IsNext :
    (e : Extra) (rest : Bytes)
    → IsExtra e
    → Answers (IsNext (length rest)) (read_additional_keys e rest)
unfolding read_additional_keys
read_additional_keys-IsNext e [] w = refused
read_additional_keys-IsNext e (l ∷ rest) w =
    Answers-if (ltb (length rest) l) (λ _. refused)
      λ h.
        Answers-if ((l % 32) == 0)
          (λ _. answered (
            record {
              key_32 = IsExtra.key_32 w;
              keys_32 =
                  All-append (λ k. length k ≡ 32) (Extra.additional_keys e) (keys_of (l / 32) rest)
                    (IsExtra.keys_32 w) (keys_of-All (l / 32) rest (ground arith));
              pid_32 = IsExtra.pid_32 w;
              enc_pid_8 = IsExtra.enc_pid_8 w;
            },
            omega (arith, length-drop l rest),
          ))
          (λ _. refused)

read_extra_field-IsNext :
    (e : Extra) (tag : ℕ) (rest : Bytes)
    → IsExtra e
    → Answers (IsNext (length rest)) (read_extra_field e tag rest)
unfolding read_extra_field
read_extra_field-IsNext e tag rest w =
    Answers-if (tag == 0) (λ _. answered (w, omega arith))
      λ _.
        Answers-if (tag == 1) (λ _. read_pubkey-IsNext e rest w)
          λ _.
            Answers-if (tag == 2) (λ _. read_nonce_field-IsNext e rest w)
              λ _. Answers-if (tag == 4) (λ _. read_additional_keys-IsNext e rest w) λ _. answered w

loop_on-IsExtra :
    (fuel n : ℕ)
    → n ≤ fuel
    → ((e : Extra) (rest : Bytes)
        → IsExtra e
        → length rest ≤ fuel
        → Answers IsExtra (parse_extra_loop fuel e rest))
    → (next : Next) → IsNext n next
    → Answers IsExtra
        (elim next [ stop e' ↦ ok e' | continue e' rest' ↦ parse_extra_loop fuel e' rest' ])
loop_on-IsExtra fuel n h loop (stop e) w = answered w
loop_on-IsExtra fuel n h loop (continue e rest) (w, le) = loop e rest w (omega arith)

parse_extra_loop-IsExtra :
    (fuel : ℕ) (e : Extra) (rest : Bytes)
    → IsExtra e
    → length rest ≤ fuel
    → Answers IsExtra (parse_extra_loop fuel e rest)
unfolding parse_extra_loop
parse_extra_loop-IsExtra fuel e [] w h = answered w
parse_extra_loop-IsExtra zero e (tag ∷ rest) w h = ground arith
parse_extra_loop-IsExtra (suc fuel) e (tag ∷ rest) w h =
    Answers-bind (read_extra_field-IsNext e tag rest w) (
      loop_on-IsExtra fuel (length rest) (omega arith)
        (λ e' rest' w' le. parse_extra_loop-IsExtra fuel e' rest' w' le))

-- On any bytes ParseTxExtra returns within as many rounds as there are bytes and does not panic: with
-- an error, or with public keys and a payment id of 32 bytes each and an encrypted payment id of 8 bytes, as far as
-- it found them.
pub parse_tx_extra-IsExtra : (extra : Bytes) → Answers IsExtra (parse_tx_extra extra)
unfolding parse_tx_extra IsSized
parse_tx_extra-IsExtra extra =
    parse_extra_loop-IsExtra (length extra) no_extra extra
      (record { key_32 = tt; keys_32 = tt; pid_32 = tt; enc_pid_8 = tt }) (omega arith)
