-- ===== src/Block/Merkle/Tests.antt =====
-- Trees over a toy hash function, which brackets what it is given.
use go_monero.Base.{
  ℕ, suc, ◌≤◌, ◌<◌, ◌^◌, ◌≡◌, refl, List, [], ◌∷◌, ◌++◌, arith, ok, panic, unsupported,
}
use go_monero.Base.Bytes.{Bytes}
use go_monero.Varint.{encode_varint}
use go_monero.Tx.Read.{zeros}
use go_monero.Block.{Block, get_block_header}
use go_monero.Block.Merkle.{
  calc_merkle_root, levels, level, offset_tree, leaf_hash, set_at, previous_power_of_two, len_bits,
  get_hashing_blob,
}
use go_monero.Block.Merkle.Tree.{root}
use go_monero.Block.Merkle.Root.{perfect_leaves, calc_merkle_root-root}
use go_monero.Block.Merkle.Blob.{all_hashes, get_hashing_blob-root}

abbrev bracket : Bytes → Bytes
bracket x = 40 ∷ (x ++ (41 ∷ []))

abbrev five : List Bytes
five = (1 ∷ []) ∷ (2 ∷ []) ∷ (3 ∷ []) ∷ (4 ∷ []) ∷ (5 ∷ []) ∷ []

-- ((12)(3(45)))
five_root :
    calc_merkle_root bracket five
    ≡ ok (40 ∷ 40 ∷ 1 ∷ 2 ∷ 41 ∷ 40 ∷ 3 ∷ 40 ∷ 4 ∷ 5 ∷ 41 ∷ 41 ∷ 41 ∷ [])
unfolding calc_merkle_root levels level offset_tree leaf_hash set_at previous_power_of_two len_bits
five_root = refl

no_leaves : calc_merkle_root bracket [] ≡ panic unsupported
unfolding calc_merkle_root leaf_hash
no_leaves = refl

calc_merkle_root-root_example :
    (k : ℕ) × (2 ^ suc k ≤ 5)
    × (5 < 2 ^ suc (suc k))
    × (calc_merkle_root bracket five
        ≡ ok (root bracket (suc k) (perfect_leaves bracket (2 ^ suc k) five)))
calc_merkle_root-root_example = calc_merkle_root-root bracket five (omega arith) (omega arith)

abbrev two_txs : Block
two_txs = record {
  block = [];
  tx = [];
  major_version = 16;
  minor_version = 16;
  block_height = 100;
  timestamp = 1700000000;
  previous_block_hash = zeros 32;
  nonce = 77;
  miner_tx = record {
    version = 2;
    unlock_time = 160;
    vin_count = 1;
    input_type = 255;
    height = 100;
    output_num = 0;
    outs = [];
    extra_size = 0;
    extra = [];
  };
  txs_count = 2;
  txs = record { raw = []; tx_hash = zeros 32 } ∷ record { raw = []; tx_hash = 1 ∷ zeros 31 } ∷ [];
}

get_hashing_blob-root_example :
    (k : ℕ) × (2 ^ suc k ≤ 3)
    × (3 < 2 ^ suc (suc k))
    × (get_hashing_blob bracket two_txs
        ≡ ok (
            get_block_header two_txs
            ++ (root bracket
                  (suc k)
                  (perfect_leaves bracket (2 ^ suc k) (all_hashes bracket two_txs))
                ++ encode_varint 3)))
get_hashing_blob-root_example =
    get_hashing_blob-root bracket two_txs refl (omega arith) (omega arith)
