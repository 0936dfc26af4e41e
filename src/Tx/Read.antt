-- ===== src/Tx/Read.antt =====
-- Reading a transaction: types/tx.go, ParseTx and ParseRctSig. Both drop every error of the reader:
-- behind its end a number is 0 and an array keeps the zeros that it was made with.
use go_monero.Base.{
  ℕ, zero, suc, ◌-◌, ◌^◌, some, List, [], ◌∷◌, ◌++◌, length, take, drop, ltb, leb, ◌==◌,
  if◌then◌else◌, Result, ok, panic, too_big, out_of_range, ◌>>=◌,
}
use go_monero.Base.Bytes.{Bytes}
use go_monero.Varint.{ReadError, Reader, or_zero, read_uint8, read_varint}
use go_monero.Tx.{TxInput, TxOutput, Echd, Bpp, Clsag, Transaction, is_compact}

-- A read of a value, and the reader behind it.
abbrev pub Reads : Type 0 → Type 0
Reads A = Reader → A × Reader

-- `v, _ := levin.ReadVarint(reader)`
unfoldable pub varint : Reads ℕ
varint r = (or_zero (read_varint r).0, (read_varint r).1)

-- `b, _ := reader.ReadByte()`
unfoldable pub byte : Reads ℕ
byte r = (or_zero (read_uint8 r).0, (read_uint8 r).1)

unfoldable pub zeros : ℕ → Bytes
zeros zero = []
zeros (suc n) = 0 ∷ zeros n

-- `reader.Read(b[:])` into an array of `n` zeros.
unfoldable pub fill : ℕ → Reads Bytes
fill n r = (take n r ++ zeros (n - length r), drop n r)

abbrev pub hash : Reads Bytes
hash = fill 32

-- `for j := 0; j < n; j++`, which appends what each round reads.
unfoldable pub times : {A : Type 0} → ℕ → Reads A → Reads (List A)
times zero read r = ([], r)
times (suc n) read r = let (x, r1) = read r in let (xs, r2) = times n read r1 in (x ∷ xs, r2)

-- `int(n)` as the bound of a loop: a number from 2^63 on is negative.
abbrev pub bound : ℕ → ℕ
bound n = if ltb n (2 ^ 63) then n else 0

abbrev pub no_input : ℕ → TxInput
no_input t = record {
  input_type = t;
  height = 0;
  amount = 0;
  key_offsets = [];
  key_image = zeros 32;
}

unfoldable pub coinbase_input : Reads TxInput
coinbase_input r = let (height, r1) = varint r in (record (no_input 0xff) { height = height }, r1)

unfoldable pub key_input : Reads TxInput
key_input r =
    let (amount, r1) = varint r in
    let (ofs_count, r2) = varint r1 in
    let (key_offsets, r3) = times (bound ofs_count) varint r2 in
    let (key_image, r4) = hash r3 in
    (
      record (no_input 0x02) { amount = amount; key_offsets = key_offsets; key_image = key_image },
      r4,
    )

-- One round of the loop over the inputs; of an unknown type only the type is read.
unfoldable pub read_input : Reads TxInput
read_input r =
    let (t, r1) = byte r in
    if t == 0xff then coinbase_input r1 else if t == 0x02 then key_input r1 else (no_input t, r1)

unfoldable pub read_output : Reads TxOutput
read_output r =
    let (amount, r1) = varint r in
    let (t, r2) = byte r1 in
    let (target, r3) = hash r2 in
    let (tag, r4) = byte r3 in
    (record { amount = amount; target = target; output_type = t; view_tag = tag }, r4)

-- What a 64-bit Go run-time can allocate in one slice; `make` panics beyond.
abbrev pub max_alloc : ℕ
max_alloc = 2 ^ 48

-- ParseTx, on a transaction whose `Raw` is set.
unfoldable pub parse_tx : Transaction → Result ReadError Transaction
parse_tx tx =
    let (version, r1) = varint tx.raw in
    let (unlock_time, r2) = varint r1 in
    let (vin_count, r3) = varint r2 in
    let (inputs, r4) = times (bound vin_count) read_input r3 in
    let (vout_count, r5) = varint r4 in
    let (outputs, r6) = times (bound vout_count) read_output r5 in
    let (extra_len, r7) = varint r6 in
    let (extra, r8) = fill extra_len r7 in
    if leb max_alloc extra_len
    then panic too_big
    else ok (record tx {
      version = version;
      unlock_time = unlock_time;
      vin_count = vin_count;
      inputs = tx.inputs ++ inputs;
      vout_count = vout_count;
      outputs = tx.outputs ++ outputs;
      extra = extra;
      rct_raw = r8;
    })

-- One round of the loop that reads the encrypted amounts.
unfoldable pub read_echd : ℕ → Reads Echd
read_echd t r =
    let (mask, r1) = hash r in
    let (full, r2) = fill 8 r1 in
    let (amount, r3) = fill 8 r in
    if is_compact t
    then (record { mask = zeros 32; amount = amount }, r3)
    else (record { mask = mask; amount = full }, r2)

unfoldable pub read_bpp : Reads Bpp
read_bpp r =
    let (a, r1) = hash r in
    let (a1, r2) = hash r1 in
    let (b, r3) = hash r2 in
    let (c, r4) = hash r3 in
    let (s1, r5) = hash r4 in
    let (d1, r6) = hash r5 in
    let (l_count, r7) = varint r6 in
    let (ls, r8) = times (bound l_count) hash r7 in
    let (r_count, r9) = varint r8 in
    let (rs, r10) = times (bound r_count) hash r9 in
    (record { a = a; a1 = a1; b = b; r1 = c; s1 = s1; d1 = d1; l = ls; r = rs }, r10)

unfoldable pub read_clsag : TxInput → Reads Clsag
read_clsag i r =
    let (s, r1) = times (length i.key_offsets) hash r in
    let (c1, r2) = hash r1 in let (d, r3) = hash r2 in (record { s = s; c1 = c1; d = d }, r3)

-- `for i := 0; i < int(tx.VinCount); i++`, which indexes `tx.Inputs[i]`.
unfoldable pub read_clsags : ℕ → List TxInput → Reader → Result ReadError (List Clsag × Reader)
read_clsags zero is r = ok ([], r)
read_clsags (suc n) [] r = panic out_of_range
read_clsags (suc n) (i ∷ is) r = do
  let one = read_clsag i r
  (cs, r2) ← read_clsags n is one.1
  ok (one.0 ∷ cs, r2)

-- ParseRctSig behind its test of the length.
unfoldable pub parse_rct : Transaction → Result ReadError Transaction
parse_rct tx =
    let (t, r1) = varint tx.rct_raw in
    let (fee, r2) = varint r1 in
    let (ecdh_info, r3) = times (length tx.outputs) (read_echd t) r2 in
    let (out_pk, r4) = times (length tx.outputs) hash r3 in
    let (nbp, r5) = varint r4 in
    let (bpp, r6) = times (bound nbp) read_bpp r5 in
    do
      (clsags, r7) ← read_clsags (bound tx.vin_count) tx.inputs r6
      let pseudo = times (bound tx.vin_count) hash r7
      ok (record tx {
        rct_signature =
            some (record { rct_type = t; txn_fee = fee; ecdh_info = ecdh_info; out_pk = out_pk });
        rct_sig_prunable =
            some (record { nbp = nbp; bpp = bpp; clsags = clsags; pseudo_outs = pseudo.0 });
        rct_raw = pseudo.1;
      })

unfoldable pub parse_rct_sig : Transaction → Result ReadError Transaction
parse_rct_sig tx = let parsed = parse_rct tx in if length tx.rct_raw == 0 then ok tx else parsed
