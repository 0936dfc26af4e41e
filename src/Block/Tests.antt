-- ===== src/Block/Tests.antt =====
-- A small block, written and read, and one output without a view tag.
use go_monero.Base.{◌≡◌, refl, [], ◌∷◌, ◌++◌, arith, ok}
use go_monero.Tx.{TxOutput}
use go_monero.Tx.Read.{zeros, read_output}
use go_monero.Block.{
  MinerTx, Block, set_block_data, insert_tx, fullfill_block_header, miner_output_bytes,
}
use go_monero.Block.RoundTrip.{
  IsBlock, block_blob, block_of, fullfill_block_header-block_blob, untagged_output_misread,
}

abbrev tagged : TxOutput
tagged = record { amount = 600; target = zeros 32; output_type = 3; view_tag = 9 }

abbrev untagged : TxOutput
untagged = record { amount = 600; target = zeros 32; output_type = 2; view_tag = 0 }

abbrev miner : MinerTx
miner = record {
  version = 2;
  unlock_time = 160;
  vin_count = 1;
  input_type = 255;
  height = 100;
  output_num = 1;
  outs = tagged ∷ [];
  extra_size = 2;
  extra = 1 ∷ 2 ∷ [];
}

abbrev one_block : Block
one_block = record {
  block = [];
  tx = [];
  major_version = 16;
  minor_version = 16;
  block_height = 100;
  timestamp = 1700000000;
  previous_block_hash = zeros 32;
  nonce = 77;
  miner_tx = miner;
  txs_count = 1;
  txs = [];
}

one_block-IsBlock : IsBlock one_block (zeros 32 ∷ [])
unfolding zeros
one_block-IsBlock = record {
  timestamp_u64 = omega arith;
  previous_hash = refl;
  nonce_u32 = omega arith;
  miner = record {
    version_u64 = omega arith;
    unlock_u64 = omega arith;
    vin_u64 = omega arith;
    height_u64 = omega arith;
    tagged = ((record { amount_u64 = omega arith; target_hash = refl }, refl), tt);
    few_outs = omega arith;
    outs_counted = refl;
    short_extra = omega arith;
    extra_counted = refl;
  };
  tx_hashes = (refl, tt);
  few_txs = omega arith;
}

-- One raw transaction was inserted for the one hash.
fullfill_block_header-block_blob_example :
    fullfill_block_header (
      set_block_data
        (block_blob one_block (zeros 32 ∷ []) ++ [])
        (insert_tx (5 ∷ 6 ∷ []) one_block))
    ≡ ok (
        block_of one_block
          (insert_tx (5 ∷ 6 ∷ []) one_block)
          (zeros 32 ∷ [])
          (block_blob one_block (zeros 32 ∷ []) ++ []))
fullfill_block_header-block_blob_example =
    fullfill_block_header-block_blob one_block (insert_tx (5 ∷ 6 ∷ []) one_block) (zeros 32 ∷ []) []
      one_block-IsBlock

untagged_output_misread_example :
    read_output (miner_output_bytes untagged ++ (2 ∷ 1 ∷ []))
    ≡ (record untagged { view_tag = 2 }, 1 ∷ [])
unfolding zeros
untagged_output_misread_example =
    untagged_output_misread untagged 2 (1 ∷ [])
      (record { amount_u64 = omega arith; target_hash = refl }) refl
