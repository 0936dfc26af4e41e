-- ===== src/Tx.antt =====
-- Transactions: types/tx.go, the structs, and the writers CalculatePart1/2/3, Serialize and CalcHash.
-- The fields that only a wallet fills (addresses, decoys, secret scalars) are left out.
pub mod Read
pub mod Laws
pub mod RoundTrip
pub mod RctRoundTrip
mod Tests
use go_monero.Base.{
  ℕ, Bool, ◌||◌, Option, none, some, List, [], ◌∷◌, ◌++◌, length, ◌==◌, if◌then◌else◌, Result, ok,
  panic, nil_pointer, ◌>>=◌,
}
use go_monero.Base.Bytes.{Bytes}
use go_monero.Varint.{ReadError, encode_varint}

pub record TxInput : Type 0 where
  pub input_type : ℕ
  pub height : ℕ
  pub amount : ℕ
  pub key_offsets : List ℕ
  pub key_image : Bytes

pub record TxOutput : Type 0 where
  pub amount : ℕ
  pub target : Bytes
  pub output_type : ℕ
  pub view_tag : ℕ

pub record Echd : Type 0 where
  pub mask : Bytes
  pub amount : Bytes

pub record RctSignature : Type 0 where
  pub rct_type : ℕ
  pub txn_fee : ℕ
  pub ecdh_info : List Echd
  pub out_pk : List Bytes

pub record Bpp : Type 0 where
  pub a : Bytes
  pub a1 : Bytes
  pub b : Bytes
  pub r1 : Bytes
  pub s1 : Bytes
  pub d1 : Bytes
  pub l : List Bytes
  pub r : List Bytes

pub record Clsag : Type 0 where
  pub s : List Bytes
  pub c1 : Bytes
  pub d : Bytes

pub record RctSigPrunable : Type 0 where
  pub nbp : ℕ
  pub bpp : List Bpp
  pub clsags : List Clsag
  pub pseudo_outs : List Bytes

pub record Transaction : Type 0 where
  pub raw : Bytes
  pub version : ℕ
  pub unlock_time : ℕ
  pub vin_count : ℕ
  pub inputs : List TxInput
  pub vout_count : ℕ
  pub outputs : List TxOutput
  pub extra : Bytes
  pub rct_raw : Bytes
  pub rct_signature : Option RctSignature
  pub rct_sig_prunable : Option RctSigPrunable

-- A loop that writes every element.
unfoldable pub write_all {ℓ} : {A : Type ℓ} → (A → Bytes) → List A → Bytes
write_all w [] = []
write_all w (x ∷ xs) = w x ++ write_all w xs

-- `for _, h := range hashes { buf.Write(h[:]) }`
abbrev pub hashes_bytes : List Bytes → Bytes
hashes_bytes = write_all (λ h. h)

-- The body of the loop over the inputs: only an input of type 2 has more than its type.
unfoldable pub input_bytes : TxInput → Bytes
input_bytes i =
    i.input_type
    ∷ (if i.input_type == 0x02
        then encode_varint i.amount
          ++ (encode_varint (length i.key_offsets)
              ++ (write_all encode_varint i.key_offsets ++ i.key_image))
        else [])

unfoldable pub output_bytes : TxOutput → Bytes
output_bytes o = encode_varint o.amount ++ (o.output_type ∷ (o.target ++ (o.view_tag ∷ [])))

unfoldable pub calculate_part1 : Transaction → Bytes
calculate_part1 tx =
    encode_varint tx.version
    ++ (encode_varint tx.unlock_time
        ++ (encode_varint (length tx.inputs)
            ++ (write_all input_bytes tx.inputs
                ++ (encode_varint (length tx.outputs)
                    ++ (write_all output_bytes tx.outputs
                        ++ (encode_varint (length tx.extra) ++ tx.extra))))))

-- `slices.Contains([]uint64{4, 5, 6}, t)`
abbrev pub is_compact : ℕ → Bool
is_compact t = t == 4 || (t == 5 || t == 6)

unfoldable pub echd_bytes : ℕ → Echd → Bytes
echd_bytes t e = if is_compact t then e.amount else e.mask ++ e.amount

unfoldable pub rct_bytes : RctSignature → RctSigPrunable → Bytes
rct_bytes sig prunable =
    encode_varint sig.rct_type
    ++ (encode_varint sig.txn_fee
        ++ ((if sig.rct_type == 2 then hashes_bytes prunable.pseudo_outs else [])
            ++ (write_all (echd_bytes sig.rct_type) sig.ecdh_info ++ hashes_bytes sig.out_pk)))

unfoldable pub bpp_bytes : Bpp → Bytes
bpp_bytes p =
    p.a
    ++ (p.a1
        ++ (p.b
            ++ (p.r1
                ++ (p.s1
                    ++ (p.d1
                        ++ (encode_varint (length p.l)
                            ++ (hashes_bytes p.l
                                ++ (encode_varint (length p.r) ++ hashes_bytes p.r))))))))

unfoldable pub clsag_bytes : Clsag → Bytes
clsag_bytes c = hashes_bytes c.s ++ (c.c1 ++ c.d)

-- The count of the range proofs is the constant 1.
unfoldable pub prunable_bytes : RctSigPrunable → Bytes
prunable_bytes p =
    encode_varint 1
    ++ (write_all bpp_bytes p.bpp ++ (write_all clsag_bytes p.clsags ++ hashes_bytes p.pseudo_outs))

-- A nil pointer that is read.
abbrev pub deref {ℓ} : {A : Type ℓ} → Option A → Result ReadError A
deref none = panic nil_pointer
deref (some x) = ok x

-- CalculatePart2 reads `tx.RctSigPrunable` for the type 2 only, or it is never looked at.
unfoldable pub calculate_part2 : Transaction → Result ReadError Bytes
calculate_part2 tx = do
  sig ← deref tx.rct_signature
  prunable ←
      if sig.rct_type == 2
      then deref tx.rct_sig_prunable
      else ok (record { nbp = 0; bpp = []; clsags = []; pseudo_outs = [] })
  ok (rct_bytes sig prunable)

unfoldable pub calculate_part3 : Transaction → Result ReadError Bytes
calculate_part3 tx = do prunable ← deref tx.rct_sig_prunable; ok (prunable_bytes prunable)

unfoldable pub serialize : Transaction → Result ReadError Bytes
serialize tx = do
  part2 ← calculate_part2 tx
  part3 ← calculate_part3 tx
  ok (calculate_part1 tx ++ (part2 ++ part3))

-- CalcHash, for the hash function util.Keccak256.
unfoldable pub calc_hash : (Bytes → Bytes) → Transaction → Result ReadError Bytes
calc_hash keccak256 tx = do
  part2 ← calculate_part2 tx
  part3 ← calculate_part3 tx
  ok (keccak256 (keccak256 (calculate_part1 tx) ++ (keccak256 part2 ++ keccak256 part3)))

-- The method Serialize of an input, whose marker is always 2, and of an output, whose amount is
-- always 0.
unfoldable pub serialize_input : TxInput → Bytes
serialize_input i =
    2
    ∷ (encode_varint i.amount
        ++ (encode_varint (length i.key_offsets)
            ++ (write_all encode_varint i.key_offsets ++ i.key_image)))

unfoldable pub serialize_output : TxOutput → Bytes
serialize_output o = encode_varint 0 ++ (o.output_type ∷ (o.target ++ (o.view_tag ∷ [])))
