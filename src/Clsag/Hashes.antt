-- ===== src/Clsag/Hashes.antt =====
-- The message of the ring signatures, PrefixHash and GetFullMessage, against the hashes of CalcHash.
use go_monero.Base.{
  ◌≡◌, refl, ap, some, List, [], ◌∷◌, ◌++◌, length, All, false, arith, append-nil, ok, ◌==◌,
}
use go_monero.Base.Bytes.{Bytes}
use go_monero.Varint.{encode_varint}
use go_monero.Tx.{
  TxInput, TxOutput, Echd, RctSignature, RctSigPrunable, Transaction, write_all, hashes_bytes,
  input_bytes, output_bytes, echd_bytes, rct_bytes, serialize_input, serialize_output,
  calculate_part1, calculate_part2,
}
use go_monero.Clsag.Message.{
  prefix_bytes, serialize_rct_sig_base, proof_keys, prefix_hash, cn_fast_hash_key_v,
  get_full_message,
}

-- A transaction as the builder leaves it: counts that agree, inputs with a key, outputs with
-- hidden amounts, and the type of the range proofs.
pub record IsBuilt (tx : Transaction) (sig : RctSignature) : Type 0 where
  pub counted_inputs : tx.vin_count ≡ length tx.inputs
  pub counted_outputs : tx.vout_count ≡ length tx.outputs
  pub spent : All (λ (i : TxInput). i.input_type ≡ 2) tx.inputs
  pub hidden : All (λ (o : TxOutput). o.amount ≡ 0) tx.outputs
  pub signature : tx.rct_signature ≡ some sig
  pub proved : sig.rct_type ≡ 6

write_all-agree {ℓ κ} :
    {A : Type ℓ} (P : A → Type κ) (f g : A → Bytes)
    → ((x : A) → P x → f x ≡ g x)
    → (xs : List A) → All P xs
    → write_all f xs ≡ write_all g xs
unfolding write_all
write_all-agree P f g h [] a = refl
write_all-agree P f g h (x ∷ xs) (p, a) = rw (h x p, write_all-agree P f g h xs a)

serialize_input-input_bytes : (i : TxInput) → i.input_type ≡ 2 → serialize_input i ≡ input_bytes i
unfolding serialize_input input_bytes
serialize_input-input_bytes i h = rw h refl

serialize_output-output_bytes : (o : TxOutput) → o.amount ≡ 0 → serialize_output o ≡ output_bytes o
unfolding serialize_output output_bytes
serialize_output-output_bytes o h = rw h refl

prefix_bytes-calculate_part1 :
    {tx : Transaction} {sig : RctSignature} → IsBuilt tx sig → prefix_bytes tx ≡ calculate_part1 tx
unfolding prefix_bytes calculate_part1
prefix_bytes-calculate_part1 {tx} b = rw (
  IsBuilt.counted_inputs b,
  IsBuilt.counted_outputs b,
  write_all-agree _ serialize_input input_bytes serialize_input-input_bytes tx.inputs
      (IsBuilt.spent b),
  write_all-agree _ serialize_output output_bytes serialize_output-output_bytes tx.outputs
      (IsBuilt.hidden b),
)

encode_varint_six : encode_varint 6 ≡ 6 ∷ []
unfolding encode_varint
encode_varint_six = refl

amounts_only :
    (infos : List Echd) → write_all (echd_bytes 6) infos ≡ write_all (λ (e : Echd). e.amount) infos
unfolding write_all echd_bytes
amounts_only [] = refl
amounts_only (e ∷ infos) = ap (λ (b : Bytes). e.amount ++ b) (amounts_only infos)

serialize_rct_sig_base-rct_bytes :
    (sig : RctSignature) (prunable : RctSigPrunable)
    → sig.rct_type ≡ 6
    → rct_bytes sig prunable ≡ serialize_rct_sig_base sig
unfolding serialize_rct_sig_base rct_bytes
serialize_rct_sig_base-rct_bytes sig prunable h =
    rw (h, encode_varint_six, amounts_only sig.ecdh_info) refl

not_simple : (sig : RctSignature) → sig.rct_type ≡ 6 → (sig.rct_type == 2) ≡ false
not_simple sig h = ground arith

-- For a transaction that is built, with its signature and range proofs set, GetFullMessage of its
-- PrefixHash succeeds: the message is the hash of the hash of CalculatePart1, of the hash of
-- CalculatePart2, the two that CalcHash begins with, and of the hash of the range proofs' keys.
pub get_full_message-calculate_parts :
    (keccak256 : Bytes → Bytes) (tx : Transaction) (sig : RctSignature) (prunable : RctSigPrunable)
    → IsBuilt tx sig
    → tx.rct_sig_prunable ≡ some prunable
    → (part2 : Bytes) × (calculate_part2 tx ≡ ok part2)
      × (get_full_message keccak256 (prefix_hash keccak256 tx) tx.rct_signature tx.rct_sig_prunable
          ≡ ok (
              keccak256 (
                keccak256 (calculate_part1 tx)
                ++ (keccak256 part2 ++ keccak256 (hashes_bytes (proof_keys prunable.bpp))))))
unfolding get_full_message calculate_part2 prefix_hash cn_fast_hash_key_v write_all
get_full_message-calculate_parts keccak256 tx sig prunable b e = (
  serialize_rct_sig_base sig,
  rw (
    IsBuilt.signature b,
    not_simple sig (IsBuilt.proved b),
    serialize_rct_sig_base-rct_bytes sig
        (record { nbp = 0; bpp = []; clsags = []; pseudo_outs = [] }) (IsBuilt.proved b),
  ),
  rw (
    prefix_bytes-calculate_part1 b,
    IsBuilt.signature b,
    e,
    append-nil (keccak256 (hashes_bytes (proof_keys prunable.bpp))),
  ),
)
