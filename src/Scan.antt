-- ===== src/Scan.antt =====
-- The receiver's scan of a transaction: CheckOutputs and verifyViewKeyPair of types/tx.go, and
-- HexTo32 of util/crypto.go. The curve, Keccak256, and the type of an amount, a float64, with its
-- zero, its sum and AtomicToXmr are parameters. What is printed is left out.
pub mod Outputs
pub mod Made
mod Tests
use go_monero.Base.{
  ℕ, zero, suc, ◌+◌, ◌==◌, Bool, true, false, Option, none, some, List, [], ◌∷◌, length, ltb,
  if◌then◌else◌, Result, ok, err, panic, out_of_fuel, ◌>>=◌, ◌>>◌, guard,
}
use go_monero.Base.Bytes.{Bytes}
use go_monero.Base.Hex.{hex_decode}
use go_monero.Curve.{Curve}
use go_monero.Secret.{KeyError, derive_public_key_my}
use go_monero.Address.{AddressError, equal_bytes, decode_address}
use go_monero.Extra.{Extra, ExtraError, parse_tx_extra}
use go_monero.Amount.{receiver_view_tag, decode_rct_amount}
use go_monero.PaymentId.{decrypt_short_payment_id}
use go_monero.Tx.{TxOutput, Echd, RctSignature, Transaction}

pub data ScanError : Type 0 where
  bad_address : AddressError → ScanError
  bad_hex hex_length foreign_view_key : ScanError
  bad_extra : ExtraError → ScanError
  bad_output bad_amount bad_payment_id : KeyError → ScanError
  no_outputs : ScanError

-- An error of a callee, wrapped.
abbrev pub wrap {ℓ κ} :
    {E : Type ℓ} {A : Type κ} → (E → ScanError) → Result E A → Result ScanError A
wrap f (ok a) = ok a
wrap f (err e) = err (f e)
wrap f (panic p) = panic p
wrap f out_of_fuel = out_of_fuel

-- HexTo32
unfoldable pub hex_to_32 : Bytes → Result ScanError Bytes
hex_to_32 s = elim (hex_decode s) [
  | none ↦ err bad_hex
  | some b ↦ if length b == 32 then ok b else err hex_length
]

-- The bytes of a slice that may be nil.
abbrev pub bytes_or_nil : Option Bytes → Bytes
bytes_or_nil none = []
bytes_or_nil (some b) = b

-- `EcdhInfo[i]`, where `i` is less than its length.
unfoldable pub echd_at : List Echd → ℕ → Option Echd
echd_at [] i = none
echd_at (e ∷ es) zero = some e
echd_at (e ∷ es) (suc i) = echd_at es i

-- verifyViewKeyPair
unfoldable pub verify_view_key_pair : Curve → Bytes → Bytes → Bool
verify_view_key_pair c priv_view_key pub_view_key = elim (Curve.set_canonical c priv_view_key) [
  | none ↦ false
  | some s ↦ equal_bytes (Curve.point_bytes c (Curve.scalar_base_mult c s)) pub_view_key
]

module _ (c : Curve) (keccak256 : Bytes → Bytes) {Xmr : Type 0} (none_yet : Xmr)
    (add_xmr : Xmr → Xmr → Xmr) (atomic_to_xmr : ℕ → Xmr) where
  -- The amount of an output of the receiver's.
  unfoldable pub output_amount : Option RctSignature → Bytes → Bytes → ℕ → Result ScanError Xmr
  output_amount none tx_pub_key view_key i = ok none_yet
  output_amount (some sig) tx_pub_key view_key i =
      if ltb 0 sig.rct_type
      then elim (echd_at sig.ecdh_info i) [
        | none ↦ ok none_yet
        | some e ↦ do
          atomic ← wrap bad_amount (decode_rct_amount c keccak256 tx_pub_key view_key i e.amount)
          ok (atomic_to_xmr atomic)
      ]
      else ok none_yet

  -- One round of the loop: none, if the output is another's.
  unfoldable pub check_output :
      Option RctSignature → Bytes → Bytes → Bytes → ℕ → TxOutput → Result ScanError (Option Xmr)
  check_output sig tx_pub_key view_key spend_key i output =
      elim (receiver_view_tag c keccak256 tx_pub_key view_key i) [
        | err e ↦ ok none
        | panic p ↦ panic p
        | out_of_fuel ↦ out_of_fuel
        | ok view_tag ↦
            if output.view_tag == view_tag
            then (do
              derived_key ←
                  wrap bad_output (derive_public_key_my c keccak256 tx_pub_key view_key spend_key i)
              if equal_bytes derived_key output.target
                  then (do amount ← output_amount sig tx_pub_key view_key i; ok (some amount))
                  else ok none)
            else ok none
      ]

  -- The loop: the total amount and the number of outputs that were found.
  unfoldable pub check_loop :
      Option RctSignature
      → Bytes
      → Bytes
      → Bytes
      → ℕ
      → List TxOutput
      → Xmr
      → ℕ
      → Result ScanError (Xmr × ℕ)
  check_loop sig tx_pub_key view_key spend_key i [] total found = ok (total, found)
  check_loop sig tx_pub_key view_key spend_key i (output ∷ outputs) total found =
      check_output sig tx_pub_key view_key spend_key i output >>= λ amount. elim amount [
        | none ↦ check_loop sig tx_pub_key view_key spend_key (suc i) outputs total found
        | some a ↦
            check_loop sig tx_pub_key view_key spend_key (suc i) outputs (add_xmr total a)
              (suc found)
      ]

  -- CheckOutputs: the total amount and the payment id, or 0.
  unfoldable pub check_outputs : Transaction → Bytes → Bytes → Result ScanError (Xmr × ℕ)
  check_outputs tx address private_view_key = do
    (pub_spend_key, pub_view_key) ← wrap bad_address (decode_address keccak256 address)
    view_key ← hex_to_32 private_view_key
    guard (verify_view_key_pair c view_key pub_view_key) foreign_view_key
    extra ← wrap bad_extra (parse_tx_extra tx.extra)
    let tx_pub_key = bytes_or_nil (Extra.tx_pub_key extra)
    (total, found) ←
        check_loop tx.rct_signature tx_pub_key view_key pub_spend_key 0 tx.outputs none_yet 0
    guard (ltb 0 found) no_outputs
    elim (Extra.enc_pid extra) [
      | none ↦ ok (total, 0)
      | some enc_pid ↦ do
        (id, _) ←
            wrap bad_payment_id (decrypt_short_payment_id c keccak256 tx_pub_key view_key enc_pid)
        ok (total, id)
    ]
