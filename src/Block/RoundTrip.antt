-- ===== src/Block/RoundTrip.antt =====
-- FullfillBlockHeader reads what getBlockHeader and CalculateMinerBuff write.
use go_monero.Base.{
  ℕ, ◌≤◌, ◌<◌, ◌^◌, ◌≡◌, refl, sym, ap, List, ◌∷◌, ◌++◌, append_assoc, append-nil, length, All,
  arith, ok, length-append,
}
use go_monero.Base.Bytes.{Bytes, le_bytes, le_value, length-le_bytes, le_value-le_bytes}
use go_monero.Varint.{IsU64, encode_varint, read_uint8}
use go_monero.Varint.RoundTrip.{length-encode_varint}
use go_monero.Tx.{TxOutput, hashes_bytes, output_bytes}
use go_monero.Tx.Read.{byte, hash, read_output, max_alloc}
use go_monero.Tx.Laws.{
  Undoes, varint-encode_varint, fill-front, counted, IsHash, IsOutput, read_output-output_bytes,
}
use go_monero.Block.{
  MinerTx, Block, pair_raw, read_nonce, read_miner_tx, fullfill_block_header, get_block_header,
  miner_output_bytes, calculate_miner_buff, set_block_data,
}

-- An output with a view tag.
abbrev pub IsTagged : TxOutput → Type 0
IsTagged o = IsOutput o × (o.output_type ≡ 3)

read_output-miner_output_bytes : Undoes IsTagged miner_output_bytes read_output
unfolding miner_output_bytes output_bytes
read_output-miner_output_bytes o (h, tagged) rest =
    let same : miner_output_bytes o ≡ output_bytes o = rw tagged refl in
    rw same (read_output-output_bytes o h rest)

read_nonce-le_bytes :
    (old n : ℕ) (rest : Bytes) → n < 2 ^ 32 → read_nonce old (le_bytes 4 n ++ rest) ≡ (n, rest)
unfolding read_nonce le_bytes le_value
read_nonce-le_bytes old n rest small = ground (arith, le_value-le_bytes 4 n small)

byte-front : (n : ℕ) (rest : Bytes) → byte (n ∷ rest) ≡ (n, rest)
unfolding byte read_uint8
byte-front n rest = refl

-- What a miner's transaction of tagged outputs holds.
pub record IsMinerTx (c : MinerTx) : Type 0 where
  pub version_u64 : IsU64 c.version
  pub unlock_u64 : IsU64 c.unlock_time
  pub vin_u64 : IsU64 c.vin_count
  pub height_u64 : IsU64 c.height
  pub tagged : All IsTagged c.outs
  pub few_outs : length c.outs < 2 ^ 63
  pub outs_counted : c.output_num ≡ length c.outs
  pub short_extra : length c.extra < max_alloc
  pub extra_counted : c.extra_size ≡ length c.extra

read_miner_tx-front :
    (b : Block) (rest : Bytes)
    → IsMinerTx b.miner_tx
    → read_miner_tx (calculate_miner_buff b ++ rest) ≡ (b.miner_tx, rest)
unfolding read_miner_tx calculate_miner_buff byte read_uint8
read_miner_tx-front b rest h =
    let c = b.miner_tx in
    let (count, outs) =
      counted IsTagged miner_output_bytes read_output read_output-miner_output_bytes c.outs
        (encode_varint (length c.extra) ++ (c.extra ++ rest)) h.tagged h.few_outs in
    simp
      (
        append_assoc,
        varint-encode_varint c.version h.version_u64,
        varint-encode_varint c.unlock_time h.unlock_u64,
        varint-encode_varint c.vin_count h.vin_u64,
        varint-encode_varint c.height h.height_u64,
        count,
        outs,
        varint-encode_varint (length c.extra) (omega (arith, h.short_extra)),
        fill-front (length c.extra) c.extra refl,
      )
      (rw (sym h.outs_counted, sym h.extra_counted) refl)

-- A block whose outputs have view tags, and the hashes of its transactions.
pub record IsBlock (b : Block) (hashes : List Bytes) : Type 0 where
  pub timestamp_u64 : IsU64 b.timestamp
  pub previous_hash : IsHash b.previous_block_hash
  pub nonce_u32 : b.nonce < 2 ^ 32
  pub miner : IsMinerTx b.miner_tx
  pub tx_hashes : All IsHash hashes
  pub few_txs : length hashes < 2 ^ 63

-- A block on the wire: the header, the miner's transaction with the type byte of its missing
-- signatures, and the hashes of the others.
abbrev pub block_blob : Block → List Bytes → Bytes
block_blob b hashes =
    get_block_header b
    ++ (calculate_miner_buff b ++ (0 ∷ (encode_varint (length hashes) ++ hashes_bytes hashes)))

length-get_block_header :
    (b : Block) → IsHash b.previous_block_hash → 39 ≤ length (get_block_header b)
unfolding get_block_header
length-get_block_header b h =
    simp (length-append, length-le_bytes) (omega (arith, length-encode_varint b.timestamp, h))

length-calculate_miner_buff : (b : Block) → 4 ≤ length (calculate_miner_buff b)
unfolding calculate_miner_buff
length-calculate_miner_buff b =
    let c = b.miner_tx in
    simp length-append (
      omega (
        arith,
        length-encode_varint c.version,
        length-encode_varint c.unlock_time,
        length-encode_varint c.vin_count,
      ))

length-block_blob :
    (b : Block) (hashes : List Bytes) (rest : Bytes)
    → IsHash b.previous_block_hash
    → 43 ≤ length (block_blob b hashes ++ rest)
length-block_blob b hashes rest h =
    simp length-append (omega (arith, length-get_block_header b h, length-calculate_miner_buff b))

-- What the parser makes of it.
abbrev pub block_of : Block → Block → List Bytes → Bytes → Block
block_of b start hashes raw = record start {
  block = raw;
  major_version = b.major_version;
  minor_version = b.minor_version;
  block_height = b.miner_tx.height;
  timestamp = b.timestamp;
  previous_block_hash = b.previous_block_hash;
  nonce = b.nonce;
  miner_tx = b.miner_tx;
  txs_count = length hashes;
  txs = start.txs ++ pair_raw start.tx hashes;
}

-- The parts of the blob, each in front of the next.
abbrev block_front : Block → List Bytes → Bytes → Bytes
block_front b hashes rest =
    b.major_version
    ∷ b.minor_version
    ∷ (encode_varint b.timestamp
        ++ (b.previous_block_hash
            ++ (le_bytes 4 b.nonce
                ++ (calculate_miner_buff b
                    ++ (0 ∷ (encode_varint (length hashes) ++ (hashes_bytes hashes ++ rest)))))))

block_blob-front :
    (b : Block) (hashes : List Bytes) (rest : Bytes)
    → block_blob b hashes ++ rest ≡ block_front b hashes rest
unfolding get_block_header
block_blob-front b hashes rest = simp append_assoc

parse_block-front :
    (b start : Block) (hashes : List Bytes) (raw rest : Bytes)
    → IsBlock b hashes
    → 43 ≤ length raw
    → raw ≡ block_front b hashes rest
    → fullfill_block_header (record start { block = raw }) ≡ ok (block_of b start hashes raw)
unfolding fullfill_block_header
parse_block-front b start hashes raw rest h long e =
    let (count, loop) =
      counted IsHash (λ x. x) hash (fill-front 32) hashes rest h.tx_hashes h.few_txs in
    rw
      (
        ap byte e,
        byte-front b.major_version _,
        byte-front b.minor_version _,
        varint-encode_varint b.timestamp h.timestamp_u64 _,
        fill-front 32 b.previous_block_hash h.previous_hash _,
        read_nonce-le_bytes start.nonce b.nonce _ h.nonce_u32,
        read_miner_tx-front b _ h.miner,
        count,
        loop,
        h.miner.extra_counted,
      )
      (ground (arith, h.miner.short_extra, h.few_txs))

-- A block whose numbers lie in their types and whose outputs all have view tags, written with the
-- writers of the program, is parsed to its header, its miner's transaction and one transaction for
-- each hash, with the raw bytes that were inserted for it.
pub fullfill_block_header-block_blob :
    (b start : Block) (hashes : List Bytes) (rest : Bytes)
    → IsBlock b hashes
    → fullfill_block_header (set_block_data (block_blob b hashes ++ rest) start)
      ≡ ok (block_of b start hashes (block_blob b hashes ++ rest))
unfolding set_block_data
fullfill_block_header-block_blob b start hashes rest h =
    parse_block-front b start hashes (block_blob b hashes ++ rest) rest h
      (length-block_blob b hashes rest h.previous_hash) (block_blob-front b hashes rest)

-- An output of the type 2 has no view tag: the parser takes the byte behind it for one, and stands one
-- byte too far.
pub untagged_output_misread :
    (o : TxOutput) (next : ℕ) (rest : Bytes)
    → IsOutput o
    → o.output_type ≡ 2
    → read_output (miner_output_bytes o ++ (next ∷ rest)) ≡ (record o { view_tag = next }, rest)
unfolding miner_output_bytes output_bytes
untagged_output_misread o next rest h untagged =
    let tagged : TxOutput = record o { view_tag = next } in
    let same : miner_output_bytes o ++ (next ∷ rest) ≡ output_bytes tagged ++ rest =
      rw untagged (simp (append_assoc, append-nil)) in
    rw same (
      read_output-output_bytes tagged
        (record { amount_u64 = h.amount_u64; target_hash = h.target_hash }) rest)
