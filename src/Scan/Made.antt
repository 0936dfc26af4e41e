-- ===== src/Scan/Made.antt =====
-- CheckOutputs finds the outputs that a sender made for the address, and their amounts.
use go_monero.Base.{
  ℕ, ◌<◌, ◌≡◌, ap, ◌∙◌, inl, inr, Bool-cases, true, Option, some, List, length, ltb, arith,
  if◌then◌else◌, ok, err, ok_unique,
}
use go_monero.Base.Bytes.{Bytes, IsBytes, le_value}
use go_monero.Base.Hex.{hex_encode, hex_decode-hex_encode}
use go_monero.Curve.{Curve, IsCurve}
use go_monero.Secret.Agreement.{base_bytes}
use go_monero.Address.Format.{Kind, Address, IsAddress, IsHash, address_text}
use go_monero.Address.RoundTrip.{decode_address-address_text, equal_bytes_refl}
use go_monero.Extra.{parse_tx_extra, extra_bytes}
use go_monero.Extra.RoundTrip.{parse_tx_extra-extra_bytes}
use go_monero.PaymentId.{encrypt_payment_id, decrypt_short_payment_id}
use go_monero.PaymentId.RoundTrip.{decrypt_short_payment_id-encrypt_payment_id}
use go_monero.Tx.{RctSignature, Transaction}
use go_monero.Scan.{no_outputs, hex_to_32, verify_view_key_pair, check_loop, check_outputs}
use go_monero.Scan.Outputs.{AllMade, count_own, sum_own, check_loop-made}

module _ (c : Curve) (w : IsCurve c) (keccak256 : Bytes → Bytes) (hash : IsHash keccak256) where
  open c use {Scalar}

  view_key_read :
      (v : Scalar)
      → IsBytes (c.scalar_bytes v)
      → hex_to_32 (hex_encode (c.scalar_bytes v)) ≡ ok (c.scalar_bytes v)
  unfolding hex_to_32
  view_key_read v h = rw (hex_to_32, hex_decode-hex_encode (c.scalar_bytes v) h, w.scalar_32 v)

  view_key_fits : (v : Scalar) → verify_view_key_pair c (c.scalar_bytes v) (base_bytes c w v) ≡ true
  unfolding verify_view_key_pair
  view_key_fits v = rw (verify_view_key_pair, w.canonical v) (equal_bytes_refl (base_bytes c w v))

  decrypted :
      (r v : Scalar) (payment_id enc_pid : Bytes)
      → length payment_id ≡ 8
      → encrypt_payment_id c keccak256 payment_id (base_bytes c w v) (c.scalar_bytes r) ≡ ok enc_pid
      → decrypt_short_payment_id c keccak256 (base_bytes c w r) (c.scalar_bytes v) enc_pid
        ≡ ok (le_value payment_id, payment_id)
  decrypted r v payment_id enc_pid h e =
      let (enc', e', d) =
        decrypt_short_payment_id-encrypt_payment_id c w keccak256 hash r v payment_id h in
      ap (decrypt_short_payment_id c keccak256 (base_bytes c w r) (c.scalar_bytes v))
        (ok_unique e e')
      ∙ d

  length-decrypted :
      (r v : Scalar) (enc_pid : Bytes) (z : ℕ × Bytes)
      → decrypt_short_payment_id c keccak256 (base_bytes c w r) (c.scalar_bytes v) enc_pid ≡ ok z
      → length enc_pid ≡ 8
  unfolding decrypt_short_payment_id
  length-decrypted r v enc_pid z h =
      ground (arith, w.point_32 (c.scalar_base_mult r), w.scalar_32 v)

  -- For a transaction of a type above 0, whose extra field has the public key and the encrypted
  -- payment id of 8 bytes, and whose outputs a sender has each made for an amount below 2 ^ 64, with
  -- the view tag, the key and the encrypted amount that the address's keys give, or with a
  -- key that is another's: CheckOutputs, given the text of the address and its view secret in
  -- hexadecimal, returns the sum of the amounts of the receiver's outputs and the payment id, or
  -- the error that there is none of them.
  pub check_outputs-made :
      {Xmr : Type 0} (none_yet : Xmr) (add_xmr : Xmr → Xmr → Xmr) (atomic_to_xmr : ℕ → Xmr)
      (r v b : Scalar) (sig : RctSignature) (kind : Kind) (payment_id enc_pid : Bytes)
      (tx : Transaction) (amounts : List (Option ℕ))
      → 0 < sig.rct_type
      → IsBytes (c.scalar_bytes v)
      → IsAddress (record { kind = kind; spend = base_bytes c w b; view = base_bytes c w v })
      → length payment_id ≡ 8
      → encrypt_payment_id c keccak256 payment_id (base_bytes c w v) (c.scalar_bytes r) ≡ ok enc_pid
      → tx.extra ≡ extra_bytes (base_bytes c w r) enc_pid
      → tx.rct_signature ≡ some sig
      → AllMade c w keccak256 hash r v b sig.ecdh_info 0 tx.outputs amounts
      → check_outputs c keccak256 none_yet add_xmr atomic_to_xmr tx
          (address_text keccak256
            (record { kind = kind; spend = base_bytes c w b; view = base_bytes c w v }))
          (hex_encode (c.scalar_bytes v))
        ≡ (if ltb 0 (count_own c w keccak256 hash amounts)
            then ok (
              sum_own c w keccak256 hash none_yet add_xmr atomic_to_xmr none_yet amounts,
              le_value payment_id,
            )
            else err no_outputs)
  unfolding check_outputs
  check_outputs-made none_yet add_xmr atomic_to_xmr r v b sig kind payment_id enc_pid tx amounts
        typed key_bytes is_address eight encrypted extra signature made =
      let a : Address = record { kind = kind; spend = base_bytes c w b; view = base_bytes c w v } in
      let d = decrypted r v payment_id enc_pid eight encrypted in
      let total = sum_own c w keccak256 hash none_yet add_xmr atomic_to_xmr none_yet amounts in
      let found =
        check_loop-made c w keccak256 hash none_yet add_xmr atomic_to_xmr r v b sig typed 0
          tx.outputs amounts none_yet 0 made
        ∙ ap (λ (n : ℕ). ok (total, n)) {y = count_own c w keccak256 hash amounts} (omega arith) in
      let read =
        parse_tx_extra-extra_bytes (base_bytes c w r) enc_pid (w.point_32 (c.scalar_base_mult r))
          (length-decrypted r v enc_pid _ d) in
      let parsed = ap parse_tx_extra extra ∙ read in
      let run =
        ap
          (λ s.
            check_loop c keccak256 none_yet add_xmr atomic_to_xmr s (base_bytes c w r)
              (c.scalar_bytes v) (base_bytes c w b) 0 tx.outputs none_yet 0)
          signature
        ∙ found in
      elim (Bool-cases (ltb 0 (count_own c w keccak256 hash amounts))) [
        | inl h ↦ rw (
          check_outputs,
          (decode_address-address_text keccak256 a hash is_address).0,
          view_key_read v key_bytes,
          view_key_fits v,
          parsed,
          run,
          h,
          d,
        )
        | inr h ↦ rw (
          check_outputs,
          (decode_address-address_text keccak256 a hash is_address).0,
          view_key_read v key_bytes,
          view_key_fits v,
          parsed,
          run,
          h,
        )
      ]
