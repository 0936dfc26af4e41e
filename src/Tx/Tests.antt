-- ===== src/Tx/Tests.antt =====
-- A small transaction, written and read.
use go_monero.Base.{◌≡◌, refl, [], ◌∷◌, ◌++◌, arith, some, ok, ◌>>=◌}
use go_monero.Base.Bytes.{Bytes}
use go_monero.Tx.{
  TxInput, TxOutput, RctSignature, Bpp, RctSigPrunable, Transaction, calculate_part1, serialize,
}
use go_monero.Tx.Read.{zeros, no_input, parse_tx, parse_rct_sig}
use go_monero.Tx.RoundTrip.{
  IsTx, Parses, fresh, parsed, parse_tx-calculate_part1, coinbase_height_lost,
}
use go_monero.Tx.RctRoundTrip.{IsSigned, signed, parse_rct_sig-serialize}

abbrev z : Bytes
z =
    0 ∷ 1 ∷ 2 ∷ 3 ∷ 4 ∷ 5 ∷ 6 ∷ 7 ∷ 8 ∷ 9 ∷ 10 ∷ 11 ∷ 12 ∷ 13 ∷ 14 ∷ 15 ∷ 16 ∷ 17 ∷ 18 ∷ 19 ∷ 20
    ∷ 21 ∷ 22 ∷ 23 ∷ 24 ∷ 25 ∷ 26 ∷ 27 ∷ 28 ∷ 29 ∷ 30 ∷ 31 ∷ []

abbrev one_input : TxInput
one_input = record {
  input_type = 2;
  height = 0;
  amount = 0;
  key_offsets = 3 ∷ 300 ∷ [];
  key_image = z;
}

abbrev one_output : TxOutput
one_output = record { amount = 0; target = z; output_type = 3; view_tag = 7 }

abbrev the_sig : RctSignature
the_sig = record {
  rct_type = 6;
  txn_fee = 1000;
  ecdh_info = record { mask = zeros 32; amount = 1 ∷ 2 ∷ 3 ∷ 4 ∷ 5 ∷ 6 ∷ 7 ∷ 8 ∷ [] } ∷ [];
  out_pk = z ∷ [];
}

abbrev the_bpp : Bpp
the_bpp = record { a = z; a1 = z; b = z; r1 = z; s1 = z; d1 = z; l = z ∷ []; r = z ∷ [] }

abbrev the_prunable : RctSigPrunable
the_prunable = record {
  nbp = 1;
  bpp = the_bpp ∷ [];
  clsags = record { s = z ∷ z ∷ []; c1 = z; d = z } ∷ [];
  pseudo_outs = z ∷ [];
}

abbrev one_tx : Transaction
one_tx = record {
  raw = [];
  version = 2;
  unlock_time = 0;
  vin_count = 0;
  inputs = one_input ∷ [];
  vout_count = 0;
  outputs = one_output ∷ [];
  extra = 1 ∷ 2 ∷ [];
  rct_raw = [];
  rct_signature = some the_sig;
  rct_sig_prunable = some the_prunable;
}

one_tx-IsTx : IsTx one_tx
one_tx-IsTx = record {
  version_u64 = omega arith;
  unlock_u64 = omega arith;
  key_inputs = (
    record {
      is_key = refl;
      no_height = refl;
      amount_u64 = omega arith;
      offsets_u64 = (omega arith, (omega arith, tt));
      few_offsets = omega arith;
      image_hash = refl;
    },
    tt,
  );
  few_inputs = omega arith;
  right_outputs = (record { amount_u64 = omega arith; target_hash = refl }, tt);
  few_outputs = omega arith;
  short_extra = omega arith;
}

one_tx-IsSigned : IsSigned one_tx the_sig the_prunable
one_tx-IsSigned = record {
  type_u64 = omega arith;
  not_borromean = omega arith;
  fee_u64 = omega arith;
  amounts = ((refl, refl), tt);
  amount_each = refl;
  commitments = (refl, tt);
  commitment_each = refl;
  one_proof = refl;
  the_proof = refl;
  proofs = (
    record {
      a_hash = refl;
      a1_hash = refl;
      b_hash = refl;
      r1_hash = refl;
      s1_hash = refl;
      d1_hash = refl;
      l_hashes = (refl, tt);
      r_hashes = (refl, tt);
      few_l = omega arith;
      few_r = omega arith;
    },
    tt,
  );
  rings = (refl, (refl, (refl, tt)), refl, refl, tt);
  pseudo = (refl, tt);
  pseudo_each = refl;
}

parse_tx-calculate_part1_example :
    parse_tx (fresh (calculate_part1 one_tx ++ (9 ∷ [])))
    ≡ ok (parsed one_tx (calculate_part1 one_tx ++ (9 ∷ [])) (9 ∷ []))
parse_tx-calculate_part1_example = parse_tx-calculate_part1 one_tx (9 ∷ []) one_tx-IsTx

parse_rct_sig-serialize_example :
    (bytes : Bytes) × (serialize one_tx ≡ ok bytes)
    × ((parse_tx (fresh bytes) >>= parse_rct_sig)
        ≡ ok (signed (parsed one_tx bytes []) the_sig the_prunable))
parse_rct_sig-serialize_example =
    parse_rct_sig-serialize one_tx the_sig the_prunable one_tx-IsTx one_tx-IsSigned refl refl

-- The transaction of a miner at the height 3000000.
abbrev mined : Transaction
mined = record one_tx { inputs = record (no_input 0xff) { height = 3000000 } ∷ [] }

coinbase_height_lost_example :
    Parses
      (record (no_input 0xff) { height = 1 } ∷ [])
      (parse_tx (fresh (calculate_part1 mined ++ (5 ∷ []))))
coinbase_height_lost_example =
    coinbase_height_lost mined (record (no_input 0xff) { height = 3000000 }) (5 ∷ []) refl refl
      (omega arith) (omega arith) (omega arith)
