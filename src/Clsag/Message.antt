-- ===== src/Clsag/Message.antt =====
-- What the ring signatures of a transaction sign, and signCLSAGs: types/clsag.go, and PrefixHash of
-- types/tx2.go. The fields of the inputs that a wallet fills are a list of their own.
use go_monero.Base.{
  ℕ, suc, Option, none, some, List, [], ◌∷◌, ◌++◌, length, Result, ok, panic, nil_pointer, ◌>>=◌,
}
use go_monero.Base.Bytes.{Bytes}
use go_monero.Varint.{encode_varint}
use go_monero.Curve.{Curve}
use go_monero.Tx.{
  Echd, RctSignature, Bpp, Clsag, RctSigPrunable, Transaction, write_all, hashes_bytes,
  serialize_input, serialize_output,
}
use go_monero.Clsag.{Mixin, ClsagError, index, prove_rct_clsag_simple}

pub record SigningInput : Type 0 where
  pub mixins : List Mixin
  pub in_sk : Mixin
  pub order_indx : ℕ
  pub key_image : Bytes

-- What PrefixHash hashes.
unfoldable pub prefix_bytes : Transaction → Bytes
prefix_bytes tx =
    encode_varint tx.version
    ++ (encode_varint tx.unlock_time
        ++ (encode_varint tx.vin_count
            ++ (write_all serialize_input tx.inputs
                ++ (encode_varint tx.vout_count
                    ++ (write_all serialize_output tx.outputs
                        ++ (encode_varint (length tx.extra) ++ tx.extra))))))

-- serializeRctSigBase
unfoldable pub serialize_rct_sig_base : RctSignature → Bytes
serialize_rct_sig_base rv =
    6
    ∷ (encode_varint rv.txn_fee
        ++ (write_all (λ (e : Echd). e.amount) rv.ecdh_info ++ hashes_bytes rv.out_pk))

-- The keys of the range proofs, in the order in which they are hashed.
unfoldable pub proof_keys : List Bpp → List Bytes
proof_keys [] = []
proof_keys (p ∷ ps) = p.a ∷ p.a1 ∷ p.b ∷ p.r1 ∷ p.s1 ∷ p.d1 ∷ (p.l ++ (p.r ++ proof_keys ps))

-- A nil pointer that is read.
abbrev pub pointer : {A : Type 0} → Option A → Result ClsagError A
pointer none = panic nil_pointer
pointer (some x) = ok x

module _ (keccak256 : Bytes → Bytes) where
  unfoldable pub prefix_hash : Transaction → Bytes
  prefix_hash tx = keccak256 (prefix_bytes tx)

  -- cnFastHashKeyV
  unfoldable pub cn_fast_hash_key_v : List Bytes → Bytes
  cn_fast_hash_key_v kv = keccak256 (hashes_bytes kv)

  -- GetFullMessage
  unfoldable pub get_full_message :
      Bytes → Option RctSignature → Option RctSigPrunable → Result ClsagError Bytes
  get_full_message prefix rv rv2 = do
    sig ← pointer rv
    prunable ← pointer rv2
    ok (
        cn_fast_hash_key_v (
          prefix
          ∷ keccak256 (serialize_rct_sig_base sig)
          ∷ cn_fast_hash_key_v (proof_keys prunable.bpp)
          ∷ []))

module _ (c : Curve) (keccak256 : Bytes → Bytes) (random : ℕ → ℕ → Bytes) where
  -- The loop of signCLSAGs over the inputs, from the index `i` on; `random i` are the random scalars
  -- of the i-th signature.
  unfoldable pub sign_inputs :
      Bytes
      → List (Curve.Scalar c)
      → List Bytes
      → ℕ
      → List SigningInput
      → Result ClsagError (List Clsag)
  sign_inputs message input_scalars pseudo_outs i [] = ok []
  sign_inputs message input_scalars pseudo_outs i (input ∷ inputs) = do
    scalar ← index input_scalars i
    pseudo_out ← index pseudo_outs i
    clsag ←
        prove_rct_clsag_simple c keccak256 (random i) message (SigningInput.mixins input)
          (SigningInput.in_sk input) (Curve.scalar_bytes c scalar) pseudo_out
          (SigningInput.order_indx input) (SigningInput.key_image input)
    clsags ← sign_inputs message input_scalars pseudo_outs (suc i) inputs
    ok (clsag ∷ clsags)

  -- signCLSAGs
  unfoldable pub sign_clsags :
      Transaction → List SigningInput → List (Curve.Scalar c) → Result ClsagError (List Clsag)
  sign_clsags tx inputs input_scalars = do
    message ←
        get_full_message keccak256 (prefix_hash keccak256 tx) tx.rct_signature tx.rct_sig_prunable
    prunable ← pointer tx.rct_sig_prunable
    sign_inputs message input_scalars prunable.pseudo_outs 0 inputs
