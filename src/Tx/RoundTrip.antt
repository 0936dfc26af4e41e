-- ===== src/Tx/RoundTrip.antt =====
-- ParseTx reads what CalculatePart1 writes.
use go_monero.Base.{
  ◌<◌, ◌^◌, ◌≡◌, refl, ap, List, [], ◌∷◌, ◌++◌, append_assoc, append-nil, length, All, arith, none,
  Result, ok, panic, too_big, if◌then◌else◌, Bool, true, false, ◌⊎◌, inl, inr,
}
use go_monero.Base.Bytes.{Bytes}
use go_monero.Varint.{ReadError, IsU64, encode_varint}
use go_monero.Tx.{TxInput, Transaction, write_all, input_bytes, output_bytes, calculate_part1}
use go_monero.Tx.Read.{times, no_input, varint, read_input, read_output, max_alloc, parse_tx}
use go_monero.Tx.Laws.{
  varint-encode_varint, fill-front, counted, IsKeyInput, read_input-input_bytes,
  read_input-coinbase, IsOutput, read_output-output_bytes,
}

-- A transaction that is built to be sent: inputs that spend outputs, no coinbase.
pub record IsTx (tx : Transaction) : Type 0 where
  pub version_u64 : IsU64 tx.version
  pub unlock_u64 : IsU64 tx.unlock_time
  pub key_inputs : All IsKeyInput tx.inputs
  pub few_inputs : length tx.inputs < 2 ^ 63
  pub right_outputs : All IsOutput tx.outputs
  pub few_outputs : length tx.outputs < 2 ^ 63
  pub short_extra : length tx.extra < max_alloc

-- `&Transaction{Raw: raw}`.
abbrev pub fresh : Bytes → Transaction
fresh raw = record {
  raw = raw;
  version = 0;
  unlock_time = 0;
  vin_count = 0;
  inputs = [];
  vout_count = 0;
  outputs = [];
  extra = [];
  rct_raw = [];
  rct_signature = none;
  rct_sig_prunable = none;
}

-- What ParseTx makes of the fields that are on the wire.
abbrev pub parsed : Transaction → Bytes → Bytes → Transaction
parsed tx raw rest = record (fresh raw) {
  version = tx.version;
  unlock_time = tx.unlock_time;
  vin_count = length tx.inputs;
  inputs = tx.inputs;
  vout_count = length tx.outputs;
  outputs = tx.outputs;
  extra = tx.extra;
  rct_raw = rest;
}

-- The parts of the first part, each in front of the next.
abbrev part1_front : Transaction → Bytes → Bytes
part1_front tx rest =
    encode_varint tx.version
    ++ (encode_varint tx.unlock_time
        ++ (encode_varint (length tx.inputs)
            ++ (write_all input_bytes tx.inputs
                ++ (encode_varint (length tx.outputs)
                    ++ (write_all output_bytes tx.outputs
                        ++ (encode_varint (length tx.extra) ++ (tx.extra ++ rest)))))))

calculate_part1-front :
    (tx : Transaction) (rest : Bytes) → calculate_part1 tx ++ rest ≡ part1_front tx rest
unfolding calculate_part1
calculate_part1-front tx rest = simp append_assoc

parse-front :
    (tx : Transaction) (raw rest : Bytes)
    → IsTx tx
    → raw ≡ part1_front tx rest
    → parse_tx (fresh raw) ≡ ok (parsed tx raw rest)
unfolding parse_tx
parse-front tx raw rest h e =
    let behind : Bytes = encode_varint (length tx.extra) ++ (tx.extra ++ rest) in
    let (out_count, outs) =
      counted IsOutput output_bytes read_output read_output-output_bytes tx.outputs behind
        h.right_outputs h.few_outputs in
    let (in_count, ins) =
      counted IsKeyInput input_bytes read_input read_input-input_bytes tx.inputs
        (encode_varint (length tx.outputs) ++ (write_all output_bytes tx.outputs ++ behind))
        h.key_inputs h.few_inputs in
    rw
      (
        ap varint e,
        varint-encode_varint tx.version h.version_u64 _,
        varint-encode_varint tx.unlock_time h.unlock_u64 _,
        in_count,
        ins,
        out_count,
        outs,
        varint-encode_varint (length tx.extra) (omega (arith, h.short_extra)) (tx.extra ++ rest),
        fill-front (length tx.extra) tx.extra refl rest,
      )
      (ground (arith, h.short_extra))

-- The first part of a transaction that spends outputs, its numbers and arrays in their types, with anything behind it, is parsed to the fields that it was
-- written from, the counts of the inputs and the outputs, and what stands behind as the rest.
pub parse_tx-calculate_part1 :
    (tx : Transaction) (rest : Bytes)
    → IsTx tx
    → parse_tx (fresh (calculate_part1 tx ++ rest))
      ≡ ok (parsed tx (calculate_part1 tx ++ rest) rest)
parse_tx-calculate_part1 tx rest h =
    parse-front tx (calculate_part1 tx ++ rest) rest h (calculate_part1-front tx rest)

-- What a run of ParseTx makes of a transaction that is not empty: the inputs in it, or a panic where
-- the length of the extra field is more than can be allocated.
abbrev pub Parses : List TxInput → Result ReadError Transaction → Type 0
Parses inputs run =
    (run ≡ panic too_big) ⊎ ((tx : Transaction) × (run ≡ ok tx) × (tx.inputs ≡ inputs))

allocated-Parses :
    (b : Bool) (t : Transaction) → Parses t.inputs (if b then panic too_big else ok t)
allocated-Parses true t = inl refl
allocated-Parses false t = inr (t, refl, refl)

-- CalculatePart1 writes no height of a coinbase input: from what it writes of a transaction with one
-- coinbase input, whatever its height, ParseTx reads a coinbase input whose height is the count of the
-- outputs, unless it panics on a length of the extra field of 2^48 or more. The version, the unlock
-- time and the count of the outputs are uint64.
pub coinbase_height_lost :
    (tx : Transaction) (i : TxInput) (rest : Bytes)
    → tx.inputs ≡ i ∷ []
    → i.input_type ≡ 0xff
    → IsU64 tx.version
    → IsU64 tx.unlock_time
    → IsU64 (length tx.outputs)
    → Parses
        (record (no_input 0xff) { height = length tx.outputs } ∷ [])
        (parse_tx (fresh (calculate_part1 tx ++ rest)))
unfolding parse_tx times write_all
coinbase_height_lost tx i rest one is_coinbase version unlock small =
    let behind : Bytes =
      write_all output_bytes tx.outputs
      ++ (encode_varint (length tx.extra) ++ (tx.extra ++ rest)) in
    rw
      (
        calculate_part1-front tx rest,
        one,
        varint-encode_varint tx.version version _,
        varint-encode_varint tx.unlock_time unlock _,
        varint-encode_varint 1 (omega arith) _,
        append-nil (input_bytes i),
        read_input-coinbase i (length tx.outputs) behind is_coinbase small,
      )
      (allocated-Parses _ _)
