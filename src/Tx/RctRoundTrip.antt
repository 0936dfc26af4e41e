-- ===== src/Tx/RctRoundTrip.antt =====
-- ParseTx and ParseRctSig read what Serialize writes.
use mathlib.Core.Path.{subst}
use go_monero.Base.{
  ℕ, ◌<◌, ◌^◌, ◌≡◌, ◌≢◌, refl, sym, ap, ◌∙◌, false, List, [], ◌∷◌, ◌++◌, append_assoc, append-nil,
  length, All, arith, ◌==◌, lt→ltb, some, ok, ◌>>=◌, length-append,
}
use go_monero.Base.Bytes.{Bytes}
use go_monero.Varint.{IsU64, encode_varint}
use go_monero.Varint.RoundTrip.{length-encode_varint}
use go_monero.Tx.{
  TxInput, Clsag, RctSignature, RctSigPrunable, Transaction, write_all, hashes_bytes, echd_bytes,
  bpp_bytes, clsag_bytes, rct_bytes, prunable_bytes, calculate_part1, calculate_part2,
  calculate_part3, serialize,
}
use go_monero.Tx.Read.{
  Reads, varint, hash, times, bound, read_echd, read_bpp, read_clsag, read_clsags, parse_tx,
  parse_rct, parse_rct_sig,
}
use go_monero.Tx.Laws.{
  Undoes, varint-encode_varint, fill-front, times-write_all, IsHash, IsEchd, read_echd-echd_bytes,
  IsBpp, read_bpp-bpp_bytes,
}
use go_monero.Tx.RoundTrip.{IsTx, fresh, parsed, parse_tx-calculate_part1}

-- A ring signature for each input, with as many responses as the ring has members.
abbrev pub AreClsags : List TxInput → List Clsag → Type 0
AreClsags [] [] = Unit {0}
AreClsags [] (c ∷ cs) = ⊥
AreClsags (i ∷ is) [] = ⊥
AreClsags (i ∷ is) (c ∷ cs) =
    (length c.s ≡ length i.key_offsets)
    × All IsHash c.s
    × IsHash c.c1
    × IsHash c.d
    × AreClsags is cs

-- The signatures of a transaction of a type that is not 2, with one range proof.
pub record IsSigned (tx : Transaction) (sig : RctSignature) (p : RctSigPrunable) : Type 0 where
  pub type_u64 : IsU64 sig.rct_type
  pub not_borromean : sig.rct_type ≢ 2
  pub fee_u64 : IsU64 sig.txn_fee
  pub amounts : All (IsEchd sig.rct_type) sig.ecdh_info
  pub amount_each : length sig.ecdh_info ≡ length tx.outputs
  pub commitments : All IsHash sig.out_pk
  pub commitment_each : length sig.out_pk ≡ length tx.outputs
  pub one_proof : p.nbp ≡ 1
  pub the_proof : length p.bpp ≡ 1
  pub proofs : All IsBpp p.bpp
  pub rings : AreClsags tx.inputs p.clsags
  pub pseudo : All IsHash p.pseudo_outs
  pub pseudo_each : length p.pseudo_outs ≡ length tx.inputs

read_clsag-clsag_bytes :
    (i : TxInput) (c : Clsag) (rest : Bytes)
    → length c.s ≡ length i.key_offsets
    → All IsHash c.s
    → IsHash c.c1
    → IsHash c.d
    → read_clsag i (clsag_bytes c ++ rest) ≡ (c, rest)
unfolding read_clsag clsag_bytes
read_clsag-clsag_bytes i c rest len hs h1 hd =
    rw
      (
        sym len,
        append_assoc (hashes_bytes c.s) (c.c1 ++ c.d) rest,
        append_assoc c.c1 c.d rest,
        times-write_all IsHash (λ x. x) hash (fill-front 32) c.s (c.c1 ++ (c.d ++ rest)) hs,
        fill-front 32 c.c1 h1 (c.d ++ rest),
        fill-front 32 c.d hd rest,
      )
      refl

read_clsags-write_all :
    (is : List TxInput) (cs : List Clsag) (rest : Bytes)
    → AreClsags is cs
    → read_clsags (length is) is (write_all clsag_bytes cs ++ rest) ≡ ok (cs, rest)
unfolding read_clsags write_all
read_clsags-write_all [] [] rest h = refl
read_clsags-write_all [] (c ∷ cs) rest h = absurd h
read_clsags-write_all (i ∷ is) [] rest h = absurd h
read_clsags-write_all (i ∷ is) (c ∷ cs) rest (len, hs, h1, hd, h) =
    rw
      (
        append_assoc (clsag_bytes c) (write_all clsag_bytes cs) rest,
        read_clsag-clsag_bytes i c (write_all clsag_bytes cs ++ rest) len hs h1 hd,
        read_clsags-write_all is cs rest h,
      )
      refl

-- The signatures on the wire, each part in front of the next.
abbrev rct_front : RctSignature → RctSigPrunable → Bytes
rct_front sig p =
    encode_varint sig.rct_type
    ++ (encode_varint sig.txn_fee
        ++ (write_all (echd_bytes sig.rct_type) sig.ecdh_info
            ++ (hashes_bytes sig.out_pk
                ++ (encode_varint 1
                    ++ (write_all bpp_bytes p.bpp
                        ++ (write_all clsag_bytes p.clsags
                            ++ (hashes_bytes p.pseudo_outs ++ [])))))))

rct_bytes-front :
    (sig : RctSignature) (other p : RctSigPrunable)
    → (sig.rct_type == 2) ≡ false
    → rct_bytes sig other ++ prunable_bytes p ≡ rct_front sig p
unfolding rct_bytes prunable_bytes
rct_bytes-front sig other p e = rw e (simp (append_assoc, append-nil))

-- The transaction with its signatures.
abbrev pub signed : Transaction → RctSignature → RctSigPrunable → Transaction
signed tx sig p = record tx { rct_signature = some sig; rct_sig_prunable = some p; rct_raw = [] }

-- A loop that runs as often as there are elements.
times-of :
    {A : Type 0} (P : A → Type 0) (w : A → Bytes) (read : Reads A)
    → Undoes P w read
    → (n : ℕ) (xs : List A) (rest : Bytes) → length xs ≡ n
    → All P xs
    → times n read (write_all w xs ++ rest) ≡ (xs, rest)
times-of P w read law n xs rest len h =
    subst (λ k. times k read (write_all w xs ++ rest) ≡ (xs, rest)) len
      (times-write_all P w read law xs rest h)

parse_rct-front :
    (tx : Transaction) (sig : RctSignature) (p : RctSigPrunable)
    → IsSigned tx sig p
    → length tx.inputs < 2 ^ 63
    → tx.vin_count ≡ length tx.inputs
    → tx.rct_raw ≡ rct_front sig p
    → parse_rct tx ≡ ok (signed tx sig p)
unfolding parse_rct
parse_rct-front tx sig p h few count e =
    let runs : bound tx.vin_count ≡ length tx.inputs =
      ap bound count ∙ rw (lt→ltb (length tx.inputs) (2 ^ 63) few) refl in
    rw
      (
        ap varint e,
        varint-encode_varint sig.rct_type h.type_u64 _,
        varint-encode_varint sig.txn_fee h.fee_u64 _,
        times-of (IsEchd sig.rct_type) (echd_bytes sig.rct_type) (read_echd sig.rct_type)
            (read_echd-echd_bytes sig.rct_type) (length tx.outputs) sig.ecdh_info _ h.amount_each
            h.amounts,
        times-of IsHash (λ x. x) hash (fill-front 32) (length tx.outputs) sig.out_pk _
            h.commitment_each h.commitments,
        varint-encode_varint 1 (omega arith) _,
        times-of IsBpp bpp_bytes read_bpp read_bpp-bpp_bytes 1 p.bpp _ h.the_proof h.proofs,
        runs,
        read_clsags-write_all tx.inputs p.clsags _ h.rings,
        times-of IsHash (λ x. x) hash (fill-front 32) (length tx.inputs) p.pseudo_outs []
            h.pseudo_each h.pseudo,
        sym h.one_proof,
      )
      refl

-- The pointers are not read for a type that is not 2.
abbrev no_prunable : RctSigPrunable
no_prunable = record { nbp = 0; bpp = []; clsags = []; pseudo_outs = [] }

serialize-parts :
    (tx : Transaction) (sig : RctSignature) (p : RctSigPrunable)
    → (sig.rct_type == 2) ≡ false
    → tx.rct_signature ≡ some sig
    → tx.rct_sig_prunable ≡ some p
    → serialize tx ≡ ok (calculate_part1 tx ++ (rct_bytes sig no_prunable ++ prunable_bytes p))
unfolding serialize calculate_part2 calculate_part3
serialize-parts tx sig p e has_sig has_p = rw (has_sig, e, has_p) refl

length-rct_front : (sig : RctSignature) (p : RctSigPrunable) → 0 < length (rct_front sig p)
length-rct_front sig p =
    rw (length-append (encode_varint sig.rct_type) _)
      (omega (arith, length-encode_varint sig.rct_type))

-- The fields that the conditions are about are those that were parsed.
parsed-IsSigned :
    (tx : Transaction) (sig : RctSignature) (p : RctSigPrunable) (bytes back : Bytes)
    → IsSigned tx sig p
    → IsSigned (parsed tx bytes back) sig p
parsed-IsSigned tx sig p bytes back h = record {
  type_u64 = h.type_u64;
  not_borromean = h.not_borromean;
  fee_u64 = h.fee_u64;
  amounts = h.amounts;
  amount_each = h.amount_each;
  commitments = h.commitments;
  commitment_each = h.commitment_each;
  one_proof = h.one_proof;
  the_proof = h.the_proof;
  proofs = h.proofs;
  rings = h.rings;
  pseudo = h.pseudo;
  pseudo_each = h.pseudo_each;
}

-- A transaction that spends outputs, with signatures of a type that is not 2, one range proof and one
-- ring signature for each input, its numbers and arrays in their types, is written with no panic, and
-- its bytes are parsed to the same fields and the same signatures, with nothing left.
pub parse_rct_sig-serialize :
    (tx : Transaction) (sig : RctSignature) (p : RctSigPrunable)
    → IsTx tx
    → IsSigned tx sig p
    → tx.rct_signature ≡ some sig
    → tx.rct_sig_prunable ≡ some p
    → (bytes : Bytes) × (serialize tx ≡ ok bytes)
      × ((parse_tx (fresh bytes) >>= parse_rct_sig) ≡ ok (signed (parsed tx bytes []) sig p))
unfolding parse_rct_sig
parse_rct_sig-serialize tx sig p t h has_sig has_p =
    let other : (sig.rct_type == 2) ≡ false = ground (arith, h.not_borromean) in
    let back : Bytes = rct_bytes sig no_prunable ++ prunable_bytes p in
    let bytes : Bytes = calculate_part1 tx ++ back in
    let front : back ≡ rct_front sig p = rct_bytes-front sig no_prunable p other in
    let again : parse_rct (parsed tx bytes back) ≡ ok (signed (parsed tx bytes []) sig p) =
      parse_rct-front (parsed tx bytes back) sig p (parsed-IsSigned tx sig p bytes back h)
        t.few_inputs refl front in
    let long : 0 < length back = rw front (length-rct_front sig p) in
    (
      bytes,
      serialize-parts tx sig p other has_sig has_p,
      rw (parse_tx-calculate_part1 tx back t, again) (ground arith),
    )
