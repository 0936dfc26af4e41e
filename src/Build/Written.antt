-- ===== src/Build/Written.antt =====
-- The outputs that writeOutput2 appends for payments to one address are those that the address's
-- owner looks for.
use mathlib.Core.Path.{subst}
use go_monero.Base.{
  ℕ, suc, ◌+◌, ◌%◌, ◌^◌, ◌<◌, ◌≡◌, refl, ap, sym, ◌∙◌, false, some, List, [], ◌∷◌, ◌++◌, All, map,
  length, length-append, append_assoc, append-nil, arith, ok,
}
use go_monero.Base.Bytes.{Bytes, le_bytes}
use go_monero.Curve.{Curve, IsCurve}
use go_monero.Secret.Agreement.{
  base_bytes, shared, shared_comm, output_scalar, generate_key_derivation-base,
  derive_public_key-base,
}
use go_monero.Address.Format.{Kind, Address, IsAddress, IsHash, address_text}
use go_monero.Address.RoundTrip.{decode_address-address_text}
use go_monero.Amount.Receiving.{received}
use go_monero.Tx.{TxOutput, Echd, RctSignature}
use go_monero.Scan.{echd_at}
use go_monero.Scan.Outputs.{Made, AllMade, derive_view_tag_known}
use go_monero.Build.{
  OutputPrm, Building, with_signature, derivation_for, write_output2, output_loop,
}

echd_at-append :
    (front : List Echd) (e : Echd) (back : List Echd)
    → echd_at (front ++ (e ∷ back)) (length front) ≡ some e
unfolding echd_at
echd_at-append [] e back = refl
echd_at-append (x ∷ front) e back = echd_at-append front e back

module _ (c : Curve) (w : IsCurve c) (keccak256 : Bytes → Bytes) (hash : IsHash keccak256)
    (r v b : Curve.Scalar c) (kind : Kind) where
  open c use {Scalar}

  abbrev pub payee : Address
  payee = record { kind = kind; spend = base_bytes c w b; view = base_bytes c w v }

  -- A payment to the address.
  abbrev pub pay : ℕ → OutputPrm
  pay amount = record {
    address = address_text keccak256 payee;
    change_address = some false;
    amount = amount;
    private_view_key = [];
  }

  -- Before outputs are written.
  pub record Ready (t : Building c) (sig : RctSignature) : Type 0 where
    pub secret : Building.secret_key t ≡ c.scalar_bytes r
    pub signature : (Building.tx t).rct_signature ≡ some sig
    pub counted : (Building.tx t).vout_count ≡ length sig.ecdh_info

  -- What has come to a transaction with these new outputs.
  pub record Written (t t' : Building c) (sig sig' : RctSignature) (infos : List Echd)
      (outputs : List TxOutput) : Type 0 where
    pub ready : Ready t' sig'
    pub same_type : sig'.rct_type ≡ sig.rct_type
    pub same_extra : (Building.tx t').extra ≡ (Building.tx t).extra
    pub more_infos : sig'.ecdh_info ≡ sig.ecdh_info ++ infos
    pub more_outputs : (Building.tx t').outputs ≡ (Building.tx t).outputs ++ outputs

  write_output2-pay :
      (t : Building c) (sig : RctSignature) (amount : ℕ)
      → IsAddress payee
      → Ready t sig
      → amount < 2 ^ 64
      → length sig.ecdh_info + 1 < 2 ^ 64
      → (t' : Building c) × (sig' : RctSignature) × (e : Echd) × (o : TxOutput) × (write_output2 c
            keccak256 t
            (pay amount)
          ≡ ok t')
        × Written t t' sig sig' (e ∷ []) (o ∷ [])
        × ((infos : List Echd)
            → echd_at infos (length sig.ecdh_info) ≡ some e
            → Made c w keccak256 hash r v b infos (length sig.ecdh_info) o (some amount))
  unfolding write_output2 with_signature derivation_for
  write_output2-pay t sig amount is_address h small room =
      let i = length sig.ecdh_info in
      let s = shared c w v r in
      let (tag, tag_lem) = derive_view_tag_known c w keccak256 hash s i in
      let (enc, x, out_pk, enc_lem, out_lem, _, _, _, _) =
        received c w keccak256 hash r v i amount small in
      let key = base_bytes c w (c.add b (output_scalar c w keccak256 s i)) in
      let key_lem = derive_public_key-base c w keccak256 s i b in
      let e : Echd = record { mask = le_bytes 32 0; amount = enc } in
      let o : TxOutput = record { amount = 0; target = key; output_type = 3; view_tag = tag } in
      let sig' : RctSignature = record sig {
        ecdh_info = sig.ecdh_info ++ e ∷ [];
        out_pk = sig.out_pk ++ out_pk ∷ [];
      } in
      let t' : Building c = record t {
        tx = record (Building.tx t) {
          rct_signature = some sig';
          vout_count = ((Building.tx t).vout_count + 1) % 2 ^ 64;
          outputs = (Building.tx t).outputs ++ o ∷ [];
        };
        blind_scalars = Building.blind_scalars t ++ x ∷ [];
        blind_amounts = Building.blind_amounts t ++ amount ∷ [];
      } in
      (
        t',
        sig',
        e,
        o,
        rw (
          write_output2,
          (decode_address-address_text keccak256 payee hash is_address).0,
          h.secret,
          generate_key_derivation-base c w v r,
          shared_comm c w r v,
          h.counted,
          key_lem,
          tag_lem,
          enc_lem,
          out_lem,
          h.signature,
        ),
        record {
          ready = record {
            secret = h.secret;
            signature = refl;
            counted = omega (arith, h.counted, length-append sig.ecdh_info (e ∷ []));
          };
          same_type = refl;
          same_extra = refl;
          more_infos = refl;
          more_outputs = refl;
        },
        λ infos at. (e, at, small, enc_lem, tag_lem, key_lem),
      )

  Written-then :
      {t t' t'' : Building c} {sig sig' sig'' : RctSignature} {e : Echd} {es : List Echd}
      {o : TxOutput} {os : List TxOutput}
      → Written t t' sig sig' (e ∷ []) (o ∷ [])
      → Written t' t'' sig' sig'' es os
      → Written t t'' sig sig'' (e ∷ es) (o ∷ os)
  Written-then {t} {t'} {t''} {sig} {sig'} {sig''} {e} {es} {o} {os} x y = record {
    ready = y.ready;
    same_type = y.same_type ∙ x.same_type;
    same_extra = y.same_extra ∙ x.same_extra;
    more_infos =
        y.more_infos
        ∙ ap (λ (l : List Echd). l ++ es) x.more_infos
        ∙ append_assoc sig.ecdh_info (e ∷ []) es;
    more_outputs =
        y.more_outputs
        ∙ ap (λ (l : List TxOutput). l ++ os) x.more_outputs
        ∙ append_assoc (Building.tx t).outputs (o ∷ []) os;
  }

  -- The outputs of all payments.
  pub output_loop-pay :
      (t : Building c) (sig : RctSignature) (amounts : List ℕ)
      → IsAddress payee
      → Ready t sig
      → All (λ a. a < 2 ^ 64) amounts
      → length sig.ecdh_info + length amounts < 2 ^ 64
      → (t' : Building c) × (sig' : RctSignature) × (es : List Echd) × (os : List TxOutput)
        × (output_loop c keccak256 t (map pay amounts) ≡ ok t')
        × Written t t' sig sig' es os
        × ((infos front : List Echd)
            → length front ≡ length sig.ecdh_info
            → infos ≡ front ++ es
            → AllMade c w keccak256 hash r v b infos (length sig.ecdh_info) os (map some amounts))
  unfolding output_loop
  output_loop-pay t sig [] is_address h small room = (
    t,
    sig,
    [],
    [],
    refl,
    record {
      ready = h;
      same_type = refl;
      same_extra = refl;
      more_infos = sym (append-nil sig.ecdh_info);
      more_outputs = sym (append-nil (Building.tx t).outputs);
    },
    λ infos front n e. tt,
  )
  output_loop-pay t sig (a ∷ amounts) is_address h (small, smalls) room =
      let (t1, sig1, e, o, run, x, made) =
        write_output2-pay t sig a is_address h small (omega arith) in
      let longer : length sig1.ecdh_info ≡ suc (length sig.ecdh_info) = omega (
        arith,
        ap (λ (l : List Echd). length l) x.more_infos,
        length-append sig.ecdh_info (e ∷ []),
      ) in
      let (t2, sig2, es, os, runs, y, mades) =
        output_loop-pay t1 sig1 amounts is_address x.ready smalls (omega (arith, longer)) in
      (
        t2,
        sig2,
        e ∷ es,
        o ∷ os,
        rw (output_loop, run) runs,
        Written-then x y,
        λ infos front n eq. (
          made infos (
              ap (λ (l : List Echd). echd_at l (length sig.ecdh_info)) eq
              ∙ ap (echd_at (front ++ (e ∷ es))) (sym n)
              ∙ echd_at-append front e es),
          subst (λ (n : ℕ). AllMade c w keccak256 hash r v b infos n os (map some amounts)) longer
              (mades infos (front ++ e ∷ [])
                (omega (arith, length-append front (e ∷ []), n, longer))
                (eq ∙ sym (append_assoc front (e ∷ []) es))),
        ),
      )
