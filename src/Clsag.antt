-- ===== src/Clsag.antt =====
-- The ring signatures: types/clsag.go, with ScMul and SubKeys of util/key.go and ScalarMult of
-- util/edwards25519.go. A Key and a Hash are their 32 bytes. `random k` is what the k-th call of
-- RandomScalar returns for one signature. The curve and Keccak256 are parameters.
pub mod Message
pub mod Hashes
pub mod Verify
pub mod Loop
pub mod Around
pub mod Closing
pub mod Signed
pub mod Complete
mod Tests
use go_monero.Base.{
  ℕ, zero, suc, ◌+◌, ◌-◌, ◌%◌, ◌==◌, true, false, none, some, List, [], ◌∷◌, ◌++◌, map, length, ltb,
  if◌then◌else◌, out_of_range, nil_pointer, Result, ok, panic, out_of_fuel, ◌>>=◌, ◌>>◌, guard,
}
use go_monero.Base.Bytes.{Bytes, codes, le_bytes}
use go_monero.Curve.{Curve, inv_eight_bytes}
use go_monero.Secret.{canonical_or_zero, hash_to_ec}
use go_monero.Tx.{Clsag, hashes_bytes}

-- A Mixin: a public key and a commitment, or the two secrets of an input.
pub record Mixin : Type 0 where
  pub dest : Bytes
  pub mask : Bytes

pub data ClsagError : Type 0 where
  commitments_mismatch nonzero_mismatch signing_index : ClsagError

-- A new Key, into which a text of at most 32 bytes has been copied.
abbrev pub tag : Bytes → Bytes
tag text = text ++ le_bytes (32 - length text) 0

-- `keys[i]`
unfoldable pub index {ℓ} : {A : Type ℓ} → List A → ℕ → Result ClsagError A
index [] i = panic out_of_range
index (x ∷ xs) zero = ok x
index (x ∷ xs) (suc i) = index xs i

-- `keys[i] = v`, in bounds.
unfoldable pub set {ℓ} : {A : Type ℓ} → List A → ℕ → A → List A
set [] i v = []
set (x ∷ xs) zero v = v ∷ xs
set (x ∷ xs) (suc i) v = x ∷ set xs i v

-- `make([]Hash, n)`
unfoldable pub new_hashes : ℕ → List Bytes
new_hashes zero = []
new_hashes (suc n) = le_bytes 32 0 ∷ new_hashes n

-- What a run over the ring changes: the index, the challenge, the number of random scalars drawn,
-- and the signature.
pub record Signing : Type 0 where
  pub at : ℕ
  pub challenge : Bytes
  pub drawn : ℕ
  pub s : List Bytes
  pub c1 : Bytes

module _ (c : Curve) where
  -- ScMul: the product of two nil scalars panics.
  unfoldable pub sc_mul : Bytes → Bytes → Result ClsagError Bytes
  sc_mul a b = elim (c.set_canonical (c.sc_reduce32 a)) [
    | none ↦ panic nil_pointer
    | some x ↦ elim (c.set_canonical (c.sc_reduce32 b)) [
      | none ↦ panic nil_pointer
      | some y ↦ ok (c.scalar_bytes (c.multiply x y))
    ]
  ]

  -- SubKeys
  unfoldable pub sub_keys : Bytes → Bytes → Bytes
  sub_keys k1 k2 = c.ge_to_bytes (c.ge_sub (c.ge_read k1) (c.ge_read k2))

  -- ScalarMult, of keys
  unfoldable pub key_mult : Bytes → Bytes → Bytes
  key_mult a b = c.ge_to_bytes (c.ge_scalar_mult a (c.ge_read b))

  -- clsagSign
  unfoldable pub clsag_sign :
      Bytes → Bytes → Bytes → Bytes → Bytes → Bytes → Result ClsagError Bytes
  clsag_sign challenge a p z mu_p mu_c = do
    cp_mu_p ← sc_mul challenge mu_p
    cc_mu_c ← sc_mul challenge mu_c
    cp_mu_p_p ← sc_mul cp_mu_p p
    cc_mu_c_z ← sc_mul cc_mu_c z
    ok (c.sc_sub a (c.sc_add cp_mu_p_p cc_mu_c_z))

-- mu_P_to_hash and mu_C_to_hash, which differ in their first key.
unfoldable pub aggregate : Bytes → List Bytes → List Bytes → Bytes → Bytes → Bytes → List Bytes
aggregate domain keys c_nonzero key_image d c_offset =
    domain ∷ (keys ++ (c_nonzero ++ (key_image ∷ d ∷ c_offset ∷ [])))

-- c_to_hash, with the two points of a round at its end.
unfoldable pub round_keys : List Bytes → List Bytes → Bytes → Bytes → Bytes → Bytes → List Bytes
round_keys keys c_nonzero c_offset message left right =
    tag (codes "CLSAG_round") ∷ (keys ++ (c_nonzero ++ (c_offset ∷ message ∷ left ∷ right ∷ [])))

module _ (c : Curve) (keccak256 : Bytes → Bytes) where
  -- hashToScalar
  unfoldable pub hash_to_scalar : List Bytes → Bytes
  hash_to_scalar keys = c.sc_reduce32 (keccak256 (hashes_bytes keys))

  -- The body of the loop: the next challenge from this one and the response `s`, for the public key
  -- and the commitment at the index.
  unfoldable pub next_challenge :
      (Bytes → Bytes → List Bytes)
      → Bytes
      → Bytes
      → Bytes
      → Bytes
      → Bytes
      → Bytes
      → Bytes
      → Bytes
      → Result ClsagError Bytes
  next_challenge to_hash mu_p mu_c image d key commitment s challenge = do
    c_p ← sc_mul c challenge mu_p
    c_c ← sc_mul c challenge mu_c
    let left = c.ge_triple_base s c_p (c.ge_read key) c_c (c.ge_read commitment)
    let h = c.ge_read (c.ge_to_bytes (hash_to_ec c keccak256 key))
    let right = c.ge_triple s h c_p (c.ge_read image) c_c (c.ge_read d)
    ok (hash_to_scalar (to_hash left right))

module _ (random : ℕ → Bytes) (next : Bytes → Bytes → Bytes → Bytes → Result ClsagError Bytes) where
  -- `for i != l`, on fuel: a round for each index but `l`. `next` is the body of the loop.
  unfoldable pub clsag_loop : ℕ → List Bytes → List Bytes → ℕ → Signing → Result ClsagError Signing
  clsag_loop zero keys commitments l r = out_of_fuel
  clsag_loop (suc fuel) keys commitments l r = elim (r.at == l) [
    | true ↦ ok r
    | false ↦ do
      key ← index keys r.at
      commitment ← index commitments r.at
      challenge ← next key commitment (random r.drawn) r.challenge
      let i = (r.at + 1) % length keys
      clsag_loop fuel keys commitments l (record {
        at = i;
        challenge = challenge;
        drawn = suc r.drawn;
        s = set r.s r.at (random r.drawn);
        c1 = if i == 0 then challenge else r.c1;
      })
  ]

module _ (c : Curve) (keccak256 : Bytes → Bytes) (random : ℕ → Bytes) where
  -- ClsagGen, with clsagPrepare.
  unfoldable pub clsag_gen :
      Bytes
      → List Bytes
      → Bytes
      → List Bytes
      → Bytes
      → List Bytes
      → Bytes
      → ℕ
      → Bytes
      → Result ClsagError Clsag
  clsag_gen message keys p commitments z c_nonzero c_offset l key_image = do
    let n = length keys
    guard (n == length commitments) commitments_mismatch
    guard (n == length c_nonzero) nonzero_mismatch
    guard (ltb l n) signing_index
    key ← index keys l
    let h = c.ge_to_bytes (hash_to_ec c keccak256 key)
    let d = key_mult c z h
    let a = random 0
    let a_g = c.point_bytes (c.scalar_base_mult (canonical_or_zero c a))
    let a_h = key_mult c a h
    let d_8 = key_mult c inv_eight_bytes d
    let mu_p =
        hash_to_scalar c keccak256
          (aggregate (tag (codes "CLSAG_agg_0")) keys c_nonzero key_image d_8 c_offset)
    let mu_c =
        hash_to_scalar c keccak256
          (aggregate (tag (codes "CLSAG_agg_1")) keys c_nonzero key_image d_8 c_offset)
    let to_hash = round_keys keys c_nonzero c_offset message
    let first = hash_to_scalar c keccak256 (to_hash a_g a_h)
    let i = (l + 1) % n
    r ←
        clsag_loop random (next_challenge c keccak256 to_hash mu_p mu_c key_image d) n keys
          commitments l
          (record {
            at = i;
            challenge = first;
            drawn = 1;
            s = new_hashes n;
            c1 = if i == 0 then first else le_bytes 32 0;
          })
    last ← clsag_sign c r.challenge a p z mu_p mu_c
    ok (record { s = set r.s l last; c1 = r.c1; d = d_8 })

  -- proveRctCLSAGSimple
  unfoldable pub prove_rct_clsag_simple :
      Bytes → List Mixin → Mixin → Bytes → Bytes → ℕ → Bytes → Result ClsagError Clsag
  prove_rct_clsag_simple message mixins in_sk a pseudo_out real_indx key_image =
      clsag_gen message (map (λ m. Mixin.dest m) mixins) (Mixin.dest in_sk)
        (map (λ m. sub_keys c (Mixin.mask m) pseudo_out) mixins) (c.sc_sub (Mixin.mask in_sk) a)
        (map (λ m. Mixin.mask m) mixins) pseudo_out real_indx key_image
