-- ===== src/Clsag/Tests.antt =====
-- A ring of three over the group of residues, signed by its second member, and the message of a
-- transaction of one input and one output.
use go_monero.Base.{◌≡◌, refl, some, true, [], ◌∷◌, ◌++◌, length, ok}
use go_monero.Base.Bytes.{Bytes}
use go_monero.Curve.{Curve}
use go_monero.Curve.Residue.{residues, residues-IsCurve}
use go_monero.Samples.{secret, checksum_hash}
use go_monero.Tx.{
  RctSignature, RctSigPrunable, Transaction, Clsag, hashes_bytes, calculate_part1, calculate_part2,
}
use go_monero.Clsag.{prove_rct_clsag_simple}
use go_monero.Clsag.Message.{proof_keys, prefix_hash, get_full_message}
use go_monero.Clsag.Hashes.{IsBuilt, get_full_message-calculate_parts}
use go_monero.Clsag.Verify.{Members, verify}
use go_monero.Clsag.Closing.{hash_point}
use go_monero.Clsag.Complete.{mixins_of, prove_rct_clsag_simple-verify}

abbrev member :
    Curve.Scalar residues → Curve.Scalar residues → Curve.Point residues × Curve.Point residues
member p q = (Curve.scalar_base_mult residues p, Curve.scalar_base_mult residues q)

abbrev decoy : Members residues
decoy = member (secret 41) (secret 42) ∷ []

abbrev decoys : Members residues
decoys = member (secret 51) (secret 52) ∷ []

abbrev own_mask : Curve.Scalar residues
own_mask = Curve.add residues (secret 7) (secret 1000)

abbrev hidden : Curve.Scalar residues
hidden = Curve.add residues (secret 8) (secret 1000)

abbrev message : Bytes
message = checksum_hash (1 ∷ 2 ∷ 3 ∷ [])

prove_rct_clsag_simple-verify_example :
    (sig : Clsag) × (prove_rct_clsag_simple residues checksum_hash
        (λ j. Curve.scalar_bytes residues (secret j))
        message
        (mixins_of residues residues-IsCurve (decoy ++ (member (secret 5) own_mask ∷ decoys)))
        (record {
          dest = Curve.scalar_bytes residues (secret 5);
          mask = Curve.scalar_bytes residues (secret 7);
        })
        (Curve.scalar_bytes residues (secret 8))
        (Curve.point_bytes residues (Curve.scalar_base_mult residues hidden))
        (length decoy)
        (Curve.point_bytes residues (
          Curve.scalar_mult residues
            (secret 5)
            (hash_point residues residues-IsCurve checksum_hash (secret 5))))
      ≡ ok sig)
    × (verify residues residues-IsCurve checksum_hash message
          (decoy ++ (member (secret 5) own_mask ∷ decoys))
          (Curve.scalar_base_mult residues hidden)
          (Curve.scalar_mult residues
            (secret 5)
            (hash_point residues residues-IsCurve checksum_hash (secret 5)))
          sig
        ≡ true)
prove_rct_clsag_simple-verify_example =
    prove_rct_clsag_simple-verify residues residues-IsCurve checksum_hash secret message decoy
      decoys (secret 5) (secret 7) (secret 8) (secret 1000)

abbrev sig_base : RctSignature
sig_base = record {
  rct_type = 6;
  txn_fee = 30000;
  ecdh_info = record { mask = []; amount = 1 ∷ 2 ∷ 3 ∷ 4 ∷ 5 ∷ 6 ∷ 7 ∷ 8 ∷ [] } ∷ [];
  out_pk = checksum_hash (4 ∷ []) ∷ [];
}

abbrev proofs : RctSigPrunable
proofs = record {
  nbp = 1;
  bpp =
      record {
        a = checksum_hash (5 ∷ []);
        a1 = checksum_hash (6 ∷ []);
        b = checksum_hash (7 ∷ []);
        r1 = checksum_hash (8 ∷ []);
        s1 = checksum_hash (9 ∷ []);
        d1 = checksum_hash (10 ∷ []);
        l = checksum_hash (11 ∷ []) ∷ [];
        r = checksum_hash (12 ∷ []) ∷ [];
      }
      ∷ [];
  clsags = [];
  pseudo_outs = checksum_hash (13 ∷ []) ∷ [];
}

abbrev built : Transaction
built = record {
  raw = [];
  version = 2;
  unlock_time = 0;
  vin_count = 1;
  inputs =
      record {
        input_type = 2;
        height = 0;
        amount = 0;
        key_offsets = 700 ∷ 3 ∷ [];
        key_image = checksum_hash (14 ∷ []);
      }
      ∷ [];
  vout_count = 1;
  outputs =
      record { amount = 0; target = checksum_hash (15 ∷ []); output_type = 3; view_tag = 0x5a }
      ∷ [];
  extra = 1 ∷ 2 ∷ [];
  rct_raw = [];
  rct_signature = some sig_base;
  rct_sig_prunable = some proofs;
}

built-IsBuilt : IsBuilt built sig_base
built-IsBuilt = record {
  counted_inputs = refl;
  counted_outputs = refl;
  spent = (refl, tt);
  hidden = (refl, tt);
  signature = refl;
  proved = refl;
}

get_full_message-calculate_parts_example :
    (part2 : Bytes) × (calculate_part2 built ≡ ok part2)
    × (get_full_message checksum_hash
          (prefix_hash checksum_hash built)
          (some sig_base)
          (some proofs)
        ≡ ok (
            checksum_hash (
              checksum_hash (calculate_part1 built)
              ++ (checksum_hash part2
                  ++ checksum_hash (hashes_bytes (proof_keys (RctSigPrunable.bpp proofs)))))))
get_full_message-calculate_parts_example =
    get_full_message-calculate_parts checksum_hash built sig_base proofs built-IsBuilt refl
