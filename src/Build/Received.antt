-- ===== src/Build/Received.antt =====
-- A transaction that is built with payments to one address, and scanned by the address's owner.
use go_monero.Base.{
  ℕ, ◌^◌, ◌<◌, ◌≡◌, refl, ap, sym, ◌∙◌, true, false, some, List, [], ◌∷◌, ◌++◌, All, map, length,
  append_assoc, append-nil, arith, ok, ltb,
}
use go_monero.Base.Bytes.{Bytes, IsBytes, le_value, length-le_bytes}
use go_monero.Base.Hex.{hex_encode}
use go_monero.Curve.{Curve, IsCurve}
use go_monero.Secret.Agreement.{base_bytes, canonical_or_uniform-scalar_bytes}
use go_monero.Address.Format.{
  Kind, standard, sub, integrated, IsKind, IsAddress, IsHash, address_text, payment_id, is_sub,
}
use go_monero.Address.RoundTrip.{decode_address-address_text}
use go_monero.Extra.{extra_bytes}
use go_monero.PaymentId.{encrypt_payment_id}
use go_monero.PaymentId.RoundTrip.{decrypt_short_payment_id-encrypt_payment_id}
use go_monero.Scan.{check_outputs}
use go_monero.Scan.Outputs.{count_own, sum_own}
use go_monero.Scan.Made.{check_outputs-made}
use go_monero.Build.{
  OutputPrm, Building, Recipient, id_or_zeros, no_recipient, recipient_loop, new_empty_transaction,
  write_output, public_key_for, calc_extra, calc_outputs,
}
use go_monero.Build.Written.{payee, pay, Ready, output_loop-pay}

id_length : (k : Kind) → IsKind k → length (id_or_zeros (payment_id k)) ≡ 8
id_length standard h = length-le_bytes 8 0
id_length sub h = length-le_bytes 8 0
id_length (integrated pid) (_, h) = h

module _ (c : Curve) (w : IsCurve c) (keccak256 : Bytes → Bytes) (hash : IsHash keccak256)
    (r v b : Curve.Scalar c) (kind : Kind) where
  open c use {Scalar}

  -- WriteOutput, for each of these.
  abbrev pub write_outputs : Building c → List OutputPrm → Building c
  write_outputs t [] = t
  write_outputs t (prm ∷ prms) = write_outputs (write_output c t prm) prms

  write_outputs-append :
      (t : Building c) (prms : List OutputPrm)
      → write_outputs t prms ≡ record t { p_outputs = Building.p_outputs t ++ prms }
  unfolding write_output
  write_outputs-append t [] =
      ap (λ (l : List OutputPrm). record t { p_outputs = l })
        (sym (append-nil (Building.p_outputs t)))
  write_outputs-append t (prm ∷ prms) =
      write_outputs-append (write_output c t prm) prms
      ∙ ap (λ (l : List OutputPrm). record t { p_outputs = l })
          (append_assoc (Building.p_outputs t) (prm ∷ []) prms)

  abbrev payment : ℕ → OutputPrm
  payment = pay c w keccak256 hash r v b kind

  abbrev pub id : Bytes
  id = id_or_zeros (payment_id kind)

  abbrev found : ℕ → Recipient
  found outs = record {
    outs = outs;
    pub_spend_key = base_bytes c w b;
    pub_view_key = base_bytes c w v;
    payment_id = id;
  }

  recipient_step :
      (first : Recipient) (a : ℕ) (rest : List OutputPrm)
      → IsAddress (payee c w keccak256 hash r v b kind)
      → is_sub kind ≡ false
      → recipient_loop keccak256 first (payment a ∷ rest)
        ≡ recipient_loop keccak256 (found (Recipient.outs first)) rest
  unfolding recipient_loop
  recipient_step first a rest is_address h =
      let (d, e, s) =
        decode_address-address_text keccak256 (payee c w keccak256 hash r v b kind) hash
          is_address in
      rw (recipient_loop, s ∙ ap ok h, d, e)

  recipient_loop-pay :
      (first : Recipient) (a : ℕ) (amounts : List ℕ)
      → IsAddress (payee c w keccak256 hash r v b kind)
      → is_sub kind ≡ false
      → recipient_loop keccak256 first (map payment (a ∷ amounts))
        ≡ ok (found (Recipient.outs first))
  unfolding recipient_loop
  recipient_loop-pay first a [] is_address h = recipient_step first a [] is_address h
  recipient_loop-pay first a (a' ∷ amounts) is_address h =
      recipient_step first a (map payment (a' ∷ amounts)) is_address h
      ∙ recipient_loop-pay (found (Recipient.outs first)) a' amounts is_address h

  -- With its payments, before CalcExtra.
  abbrev pub fresh : List ℕ → Building c
  fresh amounts = write_outputs (new_empty_transaction c (c.scalar_bytes r)) (map payment amounts)

  -- What CalcExtra makes of it.
  abbrev extended : Bytes → List ℕ → Building c
  extended enc amounts =
      let t = record (new_empty_transaction c (c.scalar_bytes r)) {
        p_outputs = map payment amounts;
      } in
      record t {
        tx = record (Building.tx t) { extra = extra_bytes (base_bytes c w r) enc };
        public_key = base_bytes c w r;
      }

  calc_extra-fresh :
      (a : ℕ) (amounts : List ℕ) (enc : Bytes)
      → IsAddress (payee c w keccak256 hash r v b kind)
      → is_sub kind ≡ false
      → encrypt_payment_id c keccak256 id (base_bytes c w v) (c.scalar_bytes r) ≡ ok enc
      → calc_extra c keccak256 (fresh (a ∷ amounts)) ≡ ok (extended enc (a ∷ amounts))
  unfolding calc_extra public_key_for new_empty_transaction
  calc_extra-fresh a amounts enc is_address h e =
      ap (calc_extra c keccak256) (
        write_outputs-append (new_empty_transaction c (c.scalar_bytes r))
          (map payment (a ∷ amounts)))
      ∙ rw (
        calc_extra,
        recipient_loop-pay no_recipient a amounts is_address h,
        canonical_or_uniform-scalar_bytes c w r,
        e,
      )

  extended-Ready :
      (enc : Bytes) (amounts : List ℕ)
      → Ready c w keccak256 hash r v b kind
          (extended enc amounts)
          (record { rct_type = 6; txn_fee = 0; ecdh_info = []; out_pk = [] })
  unfolding new_empty_transaction
  extended-Ready enc amounts = record { secret = refl; signature = refl; counted = refl }

  count-some :
      (a : ℕ) (amounts : List ℕ)
      → ltb 0 (count_own c w keccak256 hash (map some (a ∷ amounts))) ≡ true
  count-some a amounts = ground arith

  module _ {Xmr : Type 0} (none_yet : Xmr) (add_xmr : Xmr → Xmr → Xmr)
      (atomic_to_xmr : ℕ → Xmr) where
    -- From NewEmptyTransaction with the secret `r`, for payments of one or more amounts below
    -- 2 ^ 64, fewer than 2 ^ 64, to one address that is no subaddress: WriteOutput for each,
    -- CalcExtra and CalcOutputs succeed, and CheckOutputs of the transaction, given the text of the
    -- address and its view secret in hexadecimal, returns the sum of the amounts, in order, and the
    -- address's payment id, or 0 if it has none.
    pub check_outputs-calc_outputs :
        (a : ℕ) (amounts : List ℕ)
        → IsAddress (payee c w keccak256 hash r v b kind)
        → is_sub kind ≡ false
        → IsBytes (c.scalar_bytes v)
        → All (λ x. x < 2 ^ 64) (a ∷ amounts)
        → length (a ∷ amounts) < 2 ^ 64
        → (t1 : Building c) × (t2 : Building c) × (calc_extra c keccak256 (fresh (a ∷ amounts))
            ≡ ok t1)
          × (calc_outputs c keccak256 t1 ≡ ok t2)
          × (check_outputs c keccak256 none_yet add_xmr atomic_to_xmr
                (Building.tx t2)
                (address_text keccak256 (payee c w keccak256 hash r v b kind))
                (hex_encode (c.scalar_bytes v))
              ≡ ok (
                sum_own c w keccak256 hash none_yet add_xmr atomic_to_xmr none_yet
                    (map some (a ∷ amounts)),
                le_value id,
              ))
    unfolding calc_outputs new_empty_transaction
    check_outputs-calc_outputs a amounts is_address not_sub key_bytes small room =
        let eight = id_length kind is_address.is_kind in
        let (enc, encrypted, _) =
          decrypt_short_payment_id-encrypt_payment_id c w keccak256 hash r v id eight in
        let t1 = extended enc (a ∷ amounts) in
        let (t2, sig, es, os, runs, x, made) =
          output_loop-pay c w keccak256 hash r v b kind t1 _ (a ∷ amounts) is_address
            (extended-Ready enc (a ∷ amounts)) small (omega (arith, room)) in
        (
          t1,
          t2,
          calc_extra-fresh a amounts enc is_address not_sub encrypted,
          runs,
          check_outputs-made c w keccak256 hash none_yet add_xmr atomic_to_xmr r v b sig kind id enc
                (Building.tx t2) (map some (a ∷ amounts)) (omega (arith, x.same_type)) key_bytes
                is_address eight encrypted x.same_extra x.ready.signature
                (rw x.more_outputs (made sig.ecdh_info [] refl x.more_infos))
              ∙ rw (count-some a amounts),
        )
