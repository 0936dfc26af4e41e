-- ===== src/Scan/Outputs.antt =====
-- The loop of CheckOutputs over outputs that a sender made for the address, and others.
use go_monero.Base.{
  ℕ, suc, ◌+◌, ◌^◌, ◌<◌, ◌==◌, ◌≡◌, refl, ap, ◌∙◌, inl, inr, Bool-cases, lt→ltb, ◌++◌, true, false,
  Option, none, some, List, [], ◌∷◌, length, ltb, arith, ok, ok_unique,
}
use go_monero.Base.Bytes.{Bytes, codes, cut_byte}
use go_monero.Curve.{Curve, IsCurve}
use go_monero.Varint.{encode_varint}
use go_monero.Secret.{KeyError, derive_public_key}
use go_monero.Secret.Agreement.{
  base_bytes, shared, output_scalar, derive_public_key-base, derive_public_key_my-base,
}
use go_monero.Address.{equal_bytes}
use go_monero.Address.Format.{IsHash}
use go_monero.Address.RoundTrip.{equal_bytes_refl}
use go_monero.Amount.{derive_view_tag, receiver_view_tag, encrypt_rct_amount, decode_rct_amount}
use go_monero.Amount.Receiving.{received, receiver_view_tag-derive_view_tag}
use go_monero.Tx.{TxOutput, Echd, RctSignature}
use go_monero.Scan.{echd_at, output_amount, check_output, check_loop}

first_byte :
    {E : Type 0} (b : Bytes)
    → length b ≡ 32
    → (t : ℕ) × (rest : Bytes) × (cut_byte {E = E} b ≡ ok (t, rest))
unfolding cut_byte
first_byte [] h = absurd (omega arith)
first_byte (x ∷ b) h = (x, b, refl)

some_unique : {a : Option Bytes} {x y : Bytes} → a ≡ some x → a ≡ some y → x ≡ y
some_unique h k = cc

pub same : (n : ℕ) → (n == n) ≡ true
same n = ground arith

module _ (c : Curve) (w : IsCurve c) (keccak256 : Bytes → Bytes) (hash : IsHash keccak256) where
  open c use {Scalar}

  -- With the transaction's secret `r`, for the view secret `v` and the spend secret `b`.
  module _ (r v b : Scalar) (infos : List Echd) where
    -- The output `i`, as a sender makes it for an amount, or with a key that is another's.
    abbrev pub Made : ℕ → TxOutput → Option ℕ → Type 0
    Made i o (some amount) =
        (e : Echd) × (echd_at infos i ≡ some e)
        × (amount < 2 ^ 64)
        × (encrypt_rct_amount c keccak256 (shared c w v r) i amount ≡ ok e.amount)
        × (derive_view_tag c keccak256 (shared c w v r) i ≡ ok o.view_tag)
        × (derive_public_key c keccak256 (shared c w v r) i (base_bytes c w b) ≡ some o.target)
    Made i o none =
        (key : Bytes) × (derive_public_key c keccak256 (shared c w v r) i (base_bytes c w b)
          ≡ some key)
        × (equal_bytes key o.target ≡ false)

    -- The outputs from the index `i` on.
    abbrev pub AllMade : ℕ → List TxOutput → List (Option ℕ) → Type 0
    AllMade i [] [] = Unit {0}
    AllMade i [] (a ∷ amounts) = ⊥
    AllMade i (o ∷ outputs) [] = ⊥
    AllMade i (o ∷ outputs) (a ∷ amounts) = Made i o a × AllMade (suc i) outputs amounts

  -- How many of the outputs are the receiver's.
  abbrev pub count_own : List (Option ℕ) → ℕ
  count_own [] = 0
  count_own (none ∷ amounts) = count_own amounts
  count_own (some a ∷ amounts) = suc (count_own amounts)

  decoded :
      (r v : Scalar) (i amount : ℕ) (enc : Bytes)
      → amount < 2 ^ 64
      → encrypt_rct_amount c keccak256 (shared c w v r) i amount ≡ ok enc
      → decode_rct_amount c keccak256 (base_bytes c w r) (c.scalar_bytes v) i enc ≡ ok amount
  decoded r v i amount enc h e =
      let (enc', x, out_pk, e', _, _, d, _, _) = received c w keccak256 hash r v i amount h in
      ap (decode_rct_amount c keccak256 (base_bytes c w r) (c.scalar_bytes v) i) (ok_unique e e')
      ∙ d

  pub derive_view_tag_known :
      (derivation : Bytes) (i : ℕ) → (t : ℕ) × (derive_view_tag c keccak256 derivation i ≡ ok t)
  unfolding derive_view_tag
  derive_view_tag_known derivation i =
      let (t, rest, e) =
        first_byte {E = KeyError} (keccak256 (codes "view_tag" ++ (derivation ++ encode_varint i)))
          (hash _).length_32 in
      (t, rw (derive_view_tag, e))

  view_tag_known :
      (r v : Scalar) (i : ℕ)
      → (t : ℕ) × (receiver_view_tag c keccak256 (base_bytes c w r) (c.scalar_bytes v) i ≡ ok t)
  view_tag_known r v i =
      let (t, e) = derive_view_tag_known (shared c w v r) i in
      (t, receiver_view_tag-derive_view_tag c w keccak256 hash r v i ∙ e)

  module _ {Xmr : Type 0} (none_yet : Xmr) (add_xmr : Xmr → Xmr → Xmr)
      (atomic_to_xmr : ℕ → Xmr) where
    -- The amounts that are the receiver's, added up in order.
    unfoldable pub sum_own : Xmr → List (Option ℕ) → Xmr
    sum_own total [] = total
    sum_own total (none ∷ amounts) = sum_own total amounts
    sum_own total (some a ∷ amounts) = sum_own (add_xmr total (atomic_to_xmr a)) amounts

    module _ (r v b : Scalar) (sig : RctSignature) (typed : 0 < sig.rct_type) where
      derived : ℕ → Bytes
      derived i = base_bytes c w (c.add b (output_scalar c w keccak256 (shared c w v r) i))

      typed_lem : ltb 0 sig.rct_type ≡ true
      typed_lem = lt→ltb _ _ typed

      -- An output of the receiver's.
      check_output-own :
          (i : ℕ) (o : TxOutput) (amount : ℕ)
          → Made r v b sig.ecdh_info i o (some amount)
          → check_output c keccak256 none_yet add_xmr atomic_to_xmr
              (some sig)
              (base_bytes c w r)
              (c.scalar_bytes v)
              (base_bytes c w b)
              i
              o
            ≡ ok (some (atomic_to_xmr amount))
      unfolding check_output output_amount
      check_output-own i o amount (e, at, small, enc, tag, key) = rw (
        check_output,
        receiver_view_tag-derive_view_tag c w keccak256 hash r v i ∙ tag,
        same o.view_tag,
        derive_public_key_my-base c w keccak256 r v b i,
        some_unique (derive_public_key-base c w keccak256 (shared c w v r) i b) key,
        equal_bytes_refl o.target,
        typed_lem,
        at,
        decoded r v i amount e.amount small enc,
      )

      -- An output of another's, whatever its view tag.
      check_output-foreign :
          (i : ℕ) (o : TxOutput)
          → Made r v b sig.ecdh_info i o none
          → check_output c keccak256 none_yet add_xmr atomic_to_xmr
              (some sig)
              (base_bytes c w r)
              (c.scalar_bytes v)
              (base_bytes c w b)
              i
              o
            ≡ ok none
      unfolding check_output
      check_output-foreign i o (key, e, differs) =
          let (t, known) = view_tag_known r v i in
          elim (Bool-cases (o.view_tag == t)) [
            | inl h ↦ rw (
              check_output,
              known,
              h,
              derive_public_key_my-base c w keccak256 r v b i,
              some_unique (derive_public_key-base c w keccak256 (shared c w v r) i b) e,
              differs,
            )
            | inr h ↦ rw (check_output, known, h)
          ]

      pub check_loop-made :
          (i : ℕ) (outputs : List TxOutput) (amounts : List (Option ℕ)) (total : Xmr) (found : ℕ)
          → AllMade r v b sig.ecdh_info i outputs amounts
          → check_loop c keccak256 none_yet add_xmr atomic_to_xmr
              (some sig)
              (base_bytes c w r)
              (c.scalar_bytes v)
              (base_bytes c w b)
              i
              outputs
              total
              found
            ≡ ok (sum_own total amounts, found + count_own amounts)
      unfolding check_loop sum_own
      check_loop-made i [] [] total found h = ap (λ (n : ℕ). ok (total, n)) (omega arith)
      check_loop-made i [] (a ∷ amounts) total found h = absurd h
      check_loop-made i (o ∷ outputs) [] total found h = absurd h
      check_loop-made i (o ∷ outputs) (none ∷ amounts) total found (m, h) =
          rw (check_loop, check_output-foreign i o m)
            (check_loop-made (suc i) outputs amounts total found h)
      check_loop-made i (o ∷ outputs) (some a ∷ amounts) total found (m, h) =
          rw (check_loop, check_output-own i o a m)
            (check_loop-made (suc i) outputs amounts (add_xmr total (atomic_to_xmr a)) (suc found) h
              ∙ ap (λ (n : ℕ). ok (sum_own (add_xmr total (atomic_to_xmr a)) amounts, n))
                  (omega arith))
