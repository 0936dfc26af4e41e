-- ===== src/Build.antt =====
-- Building the outputs of a transaction: types/tx2.go, NewEmptyTransaction, CalcFeeDifference,
-- CalcExtra, writeOutput2 and CalcOutputs, and ParseKeyFromHex of util/key.go. A TxPrm has the fields
-- that are read of it; its amount is in atomic units.
pub mod Written
pub mod Received
mod Tests
use go_monero.Base.{
  ℕ, suc, ◌+◌, ◌-◌, ◌%◌, ◌^◌, ◌==◌, not, Bool, true, false, Option, none, some, List, [], ◌∷◌, ◌++◌,
  length, if◌then◌else◌, wrong_type, nil_pointer, unsupported, Result, ok, err, panic, out_of_fuel,
  ◌>>=◌, ◌>>◌, guard,
}
use go_monero.Base.Bytes.{Bytes, le_bytes}
use go_monero.Base.Hex.{hex_decode}
use go_monero.Curve.{Curve}
use go_monero.Secret.{
  KeyError, or_err, canonical_or_uniform, generate_key_derivation, derive_public_key,
}
use go_monero.Address.{AddressError, decode_address, extract_payment_id, is_sub_address}
use go_monero.Extra.{extra_bytes}
use go_monero.Amount.{derive_view_tag, encrypt_rct_amount, calc_out_pk}
use go_monero.PaymentId.{encrypt_payment_id}
use go_monero.Tx.{TxOutput, Echd, RctSignature, Bpp, RctSigPrunable, Transaction}

pub data BuildError : Type 0 where
  bad_address : AddressError → BuildError
  bad_key : KeyError → BuildError
  bad_view_key no_derivation no_public_key : BuildError

abbrev pub wrap_build {ℓ κ} :
    {E : Type ℓ} {A : Type κ} → (E → BuildError) → Result E A → Result BuildError A
wrap_build f (ok a) = ok a
wrap_build f (err e) = err (f e)
wrap_build f (panic p) = panic p
wrap_build f out_of_fuel = out_of_fuel

-- An output to write. `none` is a flag that is missing, or no bool.
pub record OutputPrm : Type 0 where
  pub address : Bytes
  pub change_address : Option Bool
  pub amount : ℕ
  pub private_view_key : Bytes

-- ParseKeyFromHex
unfoldable pub parse_key_from_hex : Bytes → Result BuildError Bytes
parse_key_from_hex s = elim (hex_decode s) [
  | none ↦ err bad_view_key
  | some b ↦ if length b == 32 then ok b else err bad_view_key
]

abbrev pub new_bpp : Bpp
new_bpp = record {
  a = le_bytes 32 0;
  a1 = le_bytes 32 0;
  b = le_bytes 32 0;
  r1 = le_bytes 32 0;
  s1 = le_bytes 32 0;
  d1 = le_bytes 32 0;
  l = [];
  r = [];
}

-- A sum on uint64.
unfoldable pub sum_u64 : ℕ → List ℕ → ℕ
sum_u64 sm [] = sm
sum_u64 sm (a ∷ amounts) = sum_u64 ((sm + a) % 2 ^ 64) amounts

-- What the loop of CalcExtra keeps: the outputs to subaddresses, and what it found last.
pub record Recipient : Type 0 where
  pub outs : ℕ
  pub pub_spend_key : Bytes
  pub pub_view_key : Bytes
  pub payment_id : Bytes

abbrev pub no_recipient : Recipient
no_recipient = record {
  outs = 0;
  pub_spend_key = le_bytes 32 0;
  pub_view_key = le_bytes 32 0;
  payment_id = [];
}

-- `val["change_address"].(bool)` is there and true.
abbrev pub is_change : Option Bool → Bool
is_change (some true) = true
is_change (some false) = false
is_change none = false

abbrev pub id_or_zeros : Option Bytes → Bytes
id_or_zeros none = le_bytes 8 0
id_or_zeros (some id) = id

module _ (keccak256 : Bytes → Bytes) where
  unfoldable pub recipient_loop : Recipient → List OutputPrm → Result BuildError Recipient
  recipient_loop r [] = ok r
  recipient_loop r (prm ∷ prms) =
      let next = (do
        sub ← wrap_build bad_address (is_sub_address (OutputPrm.address prm))
        (spend, view) ← wrap_build bad_address (decode_address keccak256 (OutputPrm.address prm))
        id ← wrap_build bad_address (extract_payment_id (OutputPrm.address prm))
        ok (record {
          outs = if sub then suc (Recipient.outs r) else Recipient.outs r;
          pub_spend_key = spend;
          pub_view_key = view;
          payment_id = id_or_zeros id;
        })) in
      (if is_change (OutputPrm.change_address prm) then ok r else next) >>= λ r'.
      recipient_loop r' prms

module _ (c : Curve) where
  open c use {Scalar, Point}

  -- A transaction that is being built, with the fields that only the builder has.
  pub record Building : Type 0 where
    pub tx : Transaction
    pub p_outputs : List OutputPrm
    pub p_inputs : List ℕ
    pub secret_key : Bytes
    pub public_key : Bytes
    pub blind_scalars : List Scalar
    pub blind_amounts : List ℕ

  -- NewEmptyTransaction, with its random scalar.
  unfoldable pub new_empty_transaction : Bytes → Building
  new_empty_transaction random = record {
    tx = record {
      raw = [];
      version = 2;
      unlock_time = 0;
      vin_count = 0;
      inputs = [];
      vout_count = 0;
      outputs = [];
      extra = [];
      rct_raw = [];
      rct_signature = some (record { rct_type = 6; txn_fee = 0; ecdh_info = []; out_pk = [] });
      rct_sig_prunable =
          some (record { nbp = 1; bpp = new_bpp ∷ []; clsags = []; pseudo_outs = [] });
    };
    p_outputs = [];
    p_inputs = [];
    secret_key = random;
    public_key = le_bytes 32 0;
    blind_scalars = [];
    blind_amounts = [];
  }

  -- WriteInput, of which the amount is kept, and WriteOutput.
  unfoldable pub write_input : Building → ℕ → Building
  write_input t amount = record t { p_inputs = Building.p_inputs t ++ amount ∷ [] }

  unfoldable pub write_output : Building → OutputPrm → Building
  write_output t prm = record t { p_outputs = Building.p_outputs t ++ prm ∷ [] }

  -- `t.RctSignature`, which is written through.
  unfoldable pub with_signature :
      Building → (RctSignature → RctSignature) → Result BuildError Building
  with_signature t f = elim (Building.tx t).rct_signature [
    | none ↦ panic nil_pointer
    | some sig ↦ ok (record t { tx = record (Building.tx t) { rct_signature = some (f sig) } })
  ]

  unfoldable pub amounts_of : List OutputPrm → List ℕ
  amounts_of [] = []
  amounts_of (prm ∷ prms) = OutputPrm.amount prm ∷ amounts_of prms

  unfoldable pub calc_fee_difference : Building → Result BuildError Building
  calc_fee_difference t =
      let input_sm = sum_u64 0 (Building.p_inputs t) in
      let output_sm = sum_u64 0 (amounts_of (Building.p_outputs t)) in
      with_signature t λ sig. record sig { txn_fee = (input_sm + 2 ^ 64 - output_sm) % 2 ^ 64 }

module _ (c : Curve) (keccak256 : Bytes → Bytes) where
  open c use {Scalar, Point}

  -- The public key of the transaction: for one output to a subaddress, a multiple of its key.
  unfoldable pub public_key_for : Bytes → Recipient → Result BuildError Bytes
  public_key_for secret_key r =
      let s = canonical_or_uniform c secret_key in
      if Recipient.outs r == 1
      then elim (c.set_point (Recipient.pub_spend_key r)) [
        | none ↦ panic unsupported
        | some d ↦ ok (c.point_bytes (c.scalar_mult s d))
      ]
      else ok (c.point_bytes (c.scalar_base_mult s))

  unfoldable pub calc_extra : Building c → Result BuildError (Building c)
  calc_extra t = do
    r ← recipient_loop keccak256 no_recipient (Building.p_outputs t)
    public_key ← public_key_for (Building.secret_key t) r
    id ← wrap_build bad_key (
        encrypt_payment_id c keccak256 (Recipient.payment_id r) (Recipient.pub_view_key r)
          (Building.secret_key t))
    ok (record t {
      tx = record (Building.tx t) { extra = extra_bytes public_key id };
      public_key = public_key;
    })

  -- The derivation of an output: of change, it is the receiver's own.
  unfoldable pub derivation_for : Building c → OutputPrm → Bytes → Result BuildError Bytes
  derivation_for t prm pub_view_key = elim (OutputPrm.change_address prm) [
    | none ↦ panic wrong_type
    | some change ↦
        if not change
        then or_err (generate_key_derivation c pub_view_key (Building.secret_key t)) no_derivation
        else (do
          key ← parse_key_from_hex (OutputPrm.private_view_key prm)
          or_err (generate_key_derivation c (Building.public_key t) key) no_derivation)
  ]

  unfoldable pub write_output2 : Building c → OutputPrm → Result BuildError (Building c)
  write_output2 t prm = do
    let index = (Building.tx t).vout_count
    let amount = OutputPrm.amount prm
    (spend, view) ← wrap_build bad_address (decode_address keccak256 (OutputPrm.address prm))
    derivation ← derivation_for t prm view
    key ← or_err (derive_public_key c keccak256 derivation index spend) no_public_key
    view_tag ← wrap_build bad_key (derive_view_tag c keccak256 derivation index)
    amnt ← wrap_build bad_key (encrypt_rct_amount c keccak256 derivation index amount)
    (blind, out_pk) ← wrap_build bad_key (calc_out_pk c keccak256 derivation index amount)
    t' ← with_signature c t λ sig. record sig {
      ecdh_info = sig.ecdh_info ++ record { mask = le_bytes 32 0; amount = amnt } ∷ [];
      out_pk = sig.out_pk ++ out_pk ∷ [];
    }
    ok (record t' {
      tx = record (Building.tx t') {
        vout_count = (index + 1) % 2 ^ 64;
        outputs =
            (Building.tx t').outputs
            ++ record { amount = 0; target = key; output_type = 3; view_tag = view_tag } ∷ [];
      };
      blind_scalars = Building.blind_scalars t' ++ blind ∷ [];
      blind_amounts = Building.blind_amounts t' ++ amount ∷ [];
    })

  unfoldable pub output_loop : Building c → List OutputPrm → Result BuildError (Building c)
  output_loop t [] = ok t
  output_loop t (prm ∷ prms) = write_output2 t prm >>= λ t'. output_loop t' prms

  unfoldable pub calc_outputs : Building c → Result BuildError (Building c)
  calc_outputs t = output_loop t (Building.p_outputs t)
