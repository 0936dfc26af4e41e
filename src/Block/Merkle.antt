-- ===== src/Block/Merkle.antt =====
-- The root of the tree of transaction hashes: types/block.go, leafHash, PreviousPowerOfTwo,
-- calcMerkleRoot, GetHashingBlob and GetBlockId.
pub mod Tree
pub mod Root
pub mod Blob
mod Tests
use go_monero.Base.{
  ℕ, zero, suc, ◌+◌, ◌-◌, ◌*◌, ◌/◌, ◌^◌, List, [], ◌∷◌, ◌++◌, length, take, drop, map, leb, ◌==◌,
  if◌then◌else◌, Result, ok, panic, out_of_fuel, unsupported, out_of_range, too_big, ◌%◌, ltb,
  ◌>>=◌,
}
use go_monero.Base.Bytes.{Bytes}
use go_monero.Base.Hex.{hex_encode}
use go_monero.Varint.{encode_varint, uint64_to_bytes}
use go_monero.Tx.Read.{zeros, max_alloc}
use go_monero.Block.{BlockError, BlockTx, Block, get_block_header, calculate_miner_tx_hash}

-- `bits.Len64(x)`, for at most 64 bits.
unfoldable pub len_bits : ℕ → ℕ → ℕ
len_bits zero x = 0
len_bits (suc f) x = let more = suc (len_bits f (x / 2)) in if x == 0 then 0 else more

unfoldable pub previous_power_of_two : ℕ → ℕ
previous_power_of_two x = if x == 0 then 0 else 2 ^ (len_bits 64 x - 1)

-- `tree[i] = h`.
unfoldable pub set_at : ℕ → Bytes → List Bytes → List Bytes
set_at i h [] = []
set_at zero h (x ∷ xs) = h ∷ xs
set_at (suc i) h (x ∷ xs) = x ∷ set_at i h xs

abbrev zero_hashes : ℕ → List Bytes
zero_hashes zero = []
zero_hashes (suc n) = zeros 32 ∷ zero_hashes n

-- For the hash function util.Keccak256.
module _ (keccak256 : Bytes → Bytes) where
  unfoldable pub leaf_hash : List Bytes → Result BlockError Bytes
  leaf_hash [] = panic unsupported
  leaf_hash (x ∷ []) = ok x
  leaf_hash (x ∷ y ∷ rest) = ok (keccak256 (x ++ y))

  -- The loop that fills the offset tree, `n` rounds from the index `i` on.
  unfoldable pub offset_tree : ℕ → List Bytes → Result BlockError (List Bytes)
  offset_tree zero t = ok []
  offset_tree (suc n) t = do h ← leaf_hash t; hs ← offset_tree n (drop 2 t); ok (h ∷ hs)

  -- One level, in place: `n` rounds from the index `i` on.
  unfoldable pub level : ℕ → ℕ → List Bytes → Result BlockError (List Bytes)
  level zero i tree = ok tree
  level (suc n) i tree = do h ← leaf_hash (drop (i + i) tree); level n (suc i) (set_at i h tree)

  -- `for pow2cnt >>= 1; pow2cnt > 1; pow2cnt >>= 1`; 64 rounds bring any count down to 1.
  unfoldable pub levels : ℕ → ℕ → List Bytes → Result BlockError (List Bytes)
  levels zero pow2cnt tree = out_of_fuel
  levels (suc f) pow2cnt tree =
      let next = do tree ← level pow2cnt 0 tree; levels f (pow2cnt / 2) tree
      in if leb pow2cnt 1 then ok tree else next

  -- The tree is made of the hashes before the offset and the pairs behind it.
  unfoldable pub calc_merkle_root : List Bytes → Result BlockError Bytes
  calc_merkle_root t =
      let count = length t in
      let pow2cnt = previous_power_of_two count in
      let offset = pow2cnt * 2 - count in
      let few = leaf_hash t in
      let many = do
        pairs ← offset_tree (pow2cnt - offset) (drop offset t)
        tree ← levels 64 (pow2cnt / 2) (take offset t ++ pairs)
        leaf_hash tree
      in if leb count 2 then few else many

  -- The leaves: the hash of the miner's transaction, then those of the others, in a slice of
  -- `TxsCount + 1` zero hashes.
  unfoldable pub merkle_leaves : Block → Result BlockError (List Bytes)
  merkle_leaves b =
      let size = (b.txs_count + 1) % 2 ^ 64 in
      let filled = calculate_miner_tx_hash keccak256 b ∷ map (λ tx. tx.tx_hash) b.txs in
      if leb max_alloc (size * 32)
      then panic too_big
      else if ltb size (length filled)
      then panic out_of_range
      else ok (filled ++ zero_hashes (size - length filled))

  unfoldable pub get_hashing_blob : Block → Result BlockError Bytes
  get_hashing_blob b = do
    leaves ← merkle_leaves b
    root ← calc_merkle_root leaves
    ok (get_block_header b ++ (root ++ encode_varint ((b.txs_count + 1) % 2 ^ 64)))

  -- `binary.PutUvarint` has the loop of Uint64ToBytes.
  unfoldable pub get_block_id : Block → Result BlockError Bytes
  get_block_id b = do
    blob ← get_hashing_blob b
    ok (hex_encode (keccak256 (uint64_to_bytes (length blob) ++ blob)))
