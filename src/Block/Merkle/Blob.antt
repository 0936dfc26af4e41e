-- ===== src/Block/Merkle/Blob.antt =====
-- The blob that a block is hashed from.
use go_monero.Base.{
  ℕ, suc, ◌+◌, ◌-◌, ◌%◌, ◌^◌, ◌≤◌, ◌<◌, ◌≡◌, refl, ap, List, [], ◌∷◌, ◌++◌, append-nil, length, map,
  arith, ok,
}
use go_monero.Base.Bytes.{Bytes}
use go_monero.Varint.{encode_varint}
use go_monero.Block.{BlockTx, Block, get_block_header, calculate_miner_tx_hash}
use go_monero.Block.Merkle.{merkle_leaves, get_hashing_blob}
use go_monero.Block.Merkle.Tree.{root}
use go_monero.Block.Merkle.Root.{perfect_leaves, calc_merkle_root-root}

length-map : (txs : List BlockTx) → length (map (λ tx. tx.tx_hash) txs) ≡ length txs
length-map [] = refl
length-map (tx ∷ txs) = ap suc (length-map txs)

-- The hashes of a block, that of the miner's transaction first.
abbrev pub all_hashes : (Bytes → Bytes) → Block → List Bytes
all_hashes keccak256 b = calculate_miner_tx_hash keccak256 b ∷ map (λ tx. tx.tx_hash) b.txs

all_leaves :
    (keccak256 : Bytes → Bytes) (b : Block)
    → b.txs_count ≡ length b.txs
    → b.txs_count < 2 ^ 40
    → merkle_leaves keccak256 b ≡ ok (all_hashes keccak256 b)
unfolding merkle_leaves
all_leaves keccak256 b counted small =
    let hashes : List Bytes = map (λ tx. tx.tx_hash) b.txs in
    let size : (b.txs_count + 1) % 2 ^ 64 ≡ suc (length hashes) = omega (arith, length-map b.txs) in
    let none_left : suc (length hashes) - suc (length hashes) ≡ 0 = omega arith in
    rw (size, none_left, append-nil hashes) (ground (arith, length-map b.txs))

-- A block with as many transactions as it counts, two at least and fewer than 2^40, has a blob: the
-- header, the root of the perfect tree over its hashes (of which the largest power of two is taken that
-- is not above their number), and the number of the hashes.
pub get_hashing_blob-root :
    (keccak256 : Bytes → Bytes) (b : Block)
    → b.txs_count ≡ length b.txs
    → 2 ≤ b.txs_count
    → b.txs_count < 2 ^ 40
    → (k : ℕ) × (2 ^ suc k ≤ b.txs_count + 1)
      × (b.txs_count + 1 < 2 ^ suc (suc k))
      × (get_hashing_blob keccak256 b
          ≡ ok (
              get_block_header b
              ++ (root keccak256
                    (suc k)
                    (perfect_leaves keccak256 (2 ^ suc k) (all_hashes keccak256 b))
                  ++ encode_varint (b.txs_count + 1))))
unfolding get_hashing_blob
get_hashing_blob-root keccak256 b counted two small =
    let (k, le, above, e) =
      calc_merkle_root-root keccak256 (all_hashes keccak256 b)
        (omega (arith, length-map b.txs, counted)) (omega (arith, length-map b.txs, counted)) in
    let size : (b.txs_count + 1) % 2 ^ 64 ≡ b.txs_count + 1 = omega arith in
    (
      k,
      omega (arith, length-map b.txs, counted),
      omega (arith, length-map b.txs, counted),
      rw (all_leaves keccak256 b counted small, e, size) refl,
    )
