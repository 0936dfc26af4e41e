-- ===== src/Block.antt =====
-- Blocks: types/block.go, the structs, the parser FullfillBlockHeader and the writers.
pub mod RoundTrip
pub mod Merkle
mod Tests
use go_monero.Base.{
  ℕ, zero, suc, ◌+◌, ◌-◌, ◌*◌, ◌%◌, ◌^◌, Bool, ◌||◌, List, [], ◌∷◌, ◌++◌, length, take, drop, map,
  ltb, leb, ◌==◌, if◌then◌else◌, Result, ok, err, panic, out_of_fuel, too_big,
}
use go_monero.Base.Bytes.{Bytes, le_bytes, le_value}
use go_monero.Varint.{encode_varint}
use go_monero.Tx.{TxOutput, write_all}
use go_monero.Tx.Read.{Reads, varint, byte, fill, hash, times, bound, read_output, max_alloc}

pub record MinerTx : Type 0 where
  pub version : ℕ
  pub unlock_time : ℕ
  pub vin_count : ℕ
  pub input_type : ℕ
  pub height : ℕ
  pub output_num : ℕ
  pub outs : List TxOutput
  pub extra_size : ℕ
  pub extra : Bytes

-- A transaction of the block: the bytes that InsertTx gave for it, and the hash.
pub record BlockTx : Type 0 where
  pub raw : Bytes
  pub tx_hash : Bytes

pub record Block : Type 0 where
  pub block : Bytes
  pub tx : List Bytes
  pub major_version : ℕ
  pub minor_version : ℕ
  pub block_height : ℕ
  pub timestamp : ℕ
  pub previous_block_hash : Bytes
  pub nonce : ℕ
  pub miner_tx : MinerTx
  pub txs_count : ℕ
  pub txs : List BlockTx

pub data BlockError : Type 0 where
  too_short : BlockError

abbrev pub tx_out_to_key : ℕ
tx_out_to_key = 2

abbrev pub tx_out_to_tagged_key : ℕ
tx_out_to_tagged_key = 3

unfoldable pub set_block_data : Bytes → Block → Block
set_block_data raw b = record b { block = raw }

unfoldable pub insert_tx : Bytes → Block → Block
insert_tx raw b = record b { tx = b.tx ++ (raw ∷ []) }

-- `binary.Read(reader, binary.LittleEndian, &block.Nonce)`: a number that is cut off is not stored.
unfoldable pub read_nonce : ℕ → Reads ℕ
read_nonce old r = (if leb 4 (length r) then le_value (take 4 r) else old, drop 4 r)

-- The loop over the transactions: the hashes that are read, with the raw bytes at hand.
unfoldable pub pair_raw : List Bytes → List Bytes → List BlockTx
pair_raw raws [] = []
pair_raw [] (h ∷ hs) = record { raw = []; tx_hash = h } ∷ pair_raw [] hs
pair_raw (raw ∷ raws) (h ∷ hs) = record { raw = raw; tx_hash = h } ∷ pair_raw raws hs

-- The miner's transaction, up to its extra field.
unfoldable pub read_miner_tx : Reads MinerTx
read_miner_tx r =
    let (version, r1) = varint r in
    let (unlock_time, r2) = varint r1 in
    let (vin_count, r3) = varint r2 in
    let (input_type, r4) = byte r3 in
    let (height, r5) = varint r4 in
    let (output_num, r6) = varint r5 in
    let (outs, r7) = times (bound output_num) read_output r6 in
    let (extra_size, r8) = varint r7 in
    let (extra, r9) = fill extra_size r8 in
    (
      record {
        version = version;
        unlock_time = unlock_time;
        vin_count = vin_count;
        input_type = input_type;
        height = height;
        output_num = output_num;
        outs = outs;
        extra_size = extra_size;
        extra = extra;
      },
      r9,
    )

-- FullfillBlockHeader. The loop over the transactions ends at `int(TxsCount)-1`, which wraps around
-- for the count 2^63: it never ends then, for which `out_of_fuel` stands.
unfoldable pub fullfill_block_header : Block → Result BlockError Block
fullfill_block_header b =
    let (major, r1) = byte b.block in
    let (minor, r2) = byte r1 in
    let (timestamp, r3) = varint r2 in
    let (previous, r4) = hash r3 in
    let (nonce, r5) = read_nonce b.nonce r4 in
    let (miner, r6) = read_miner_tx r5 in
    let (txs_count, r7) = varint (drop 1 r6) in
    let (hashes, r8) = times (bound txs_count) hash r7 in
    if ltb (length b.block) 43
    then err too_short
    else if leb max_alloc miner.extra_size
    then panic too_big
    else if txs_count == 2 ^ 63
    then out_of_fuel
    else ok (record b {
      major_version = major;
      minor_version = minor;
      block_height = miner.height;
      timestamp = timestamp;
      previous_block_hash = previous;
      nonce = nonce;
      miner_tx = miner;
      txs_count = txs_count;
      txs = b.txs ++ pair_raw b.tx hashes;
    })

unfoldable pub get_block_header : Block → Bytes
get_block_header b =
    b.major_version
    ∷ b.minor_version
    ∷ (encode_varint b.timestamp ++ (b.previous_block_hash ++ le_bytes 4 b.nonce))

-- One output: the key for the types 2 and 3, the view tag for the type 3.
unfoldable pub miner_output_bytes : TxOutput → Bytes
miner_output_bytes o =
    encode_varint o.amount
    ++ (o.output_type
        ∷ ((if o.output_type == tx_out_to_tagged_key || o.output_type == tx_out_to_key
              then o.target
              else [])
            ++ (if o.output_type == tx_out_to_tagged_key then o.view_tag ∷ [] else [])))

unfoldable pub calculate_miner_buff : Block → Bytes
calculate_miner_buff b =
    let c = b.miner_tx in
    encode_varint c.version
    ++ (encode_varint c.unlock_time
        ++ (encode_varint c.vin_count
            ++ (c.input_type
                ∷ (encode_varint c.height
                    ++ (encode_varint (length c.outs)
                        ++ (write_all miner_output_bytes c.outs
                            ++ (encode_varint (length c.extra) ++ c.extra)))))))

-- For the hash function util.Keccak256, which returns 32 bytes.
unfoldable pub calculate_miner_tx_hash : (Bytes → Bytes) → Block → Bytes
calculate_miner_tx_hash keccak256 b = keccak256 (
    keccak256 (calculate_miner_buff b)
    ++ (keccak256 (0 ∷ [])
        ++ (0 ∷ 0 ∷ 0 ∷ 0 ∷ 0 ∷ 0 ∷ 0 ∷ 0 ∷ 0 ∷ 0 ∷ 0 ∷ 0 ∷ 0 ∷ 0 ∷ 0 ∷ 0 ∷ 0 ∷ 0 ∷ 0 ∷ 0 ∷ 0 ∷ 0
            ∷ 0 ∷ 0 ∷ 0 ∷ 0 ∷ 0 ∷ 0 ∷ 0 ∷ 0 ∷ 0 ∷ 0 ∷ [])))
