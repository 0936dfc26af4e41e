-- ===== src/Curve.antt =====
-- The curve Ed25519 as the program uses it, and nothing of how it is computed: the package
-- filippo.io/edwards25519, and the functions of util/edwards25519.go, a port of the ref10 library.
pub mod Residue
use go_monero.Base.{ℕ, ◌+◌, ◌%◌, ◌^◌, ◌≡◌, ◌<◌, Option, some, [], ◌∷◌, ◌++◌, length}
use go_monero.Base.Bytes.{Bytes, IsBytes, le_bytes, le_value}

-- The order of the prime subgroup, 2 ^ 252 + 27742317777372353535851937790883648493.
abbrev pub group_order : ℕ
group_order = 7237005577332262213973186563042994240857116359379907606001950938285454250989

-- The point H of the commitments: the hexadecimal text of getH, decoded.
abbrev pub commitment_base : Bytes
commitment_base =
    0x8b ∷ 0x65 ∷ 0x59 ∷ 0x70 ∷ 0x15 ∷ 0x37 ∷ 0x99 ∷ 0xaf ∷ 0x2a ∷ 0xea ∷ 0xdc ∷ 0x9f ∷ 0xf1 ∷ 0xad
    ∷ 0xd0 ∷ 0xea ∷ 0x6c ∷ 0x72 ∷ 0x51 ∷ 0xd5 ∷ 0x41 ∷ 0x54 ∷ 0xcf ∷ 0xa9 ∷ 0x2c ∷ 0x17 ∷ 0x3a
    ∷ 0x0d ∷ 0xd3 ∷ 0x9c ∷ 0x1f ∷ 0x94 ∷ []

-- util.INV_EIGHT of util/const.go.
abbrev pub inv_eight_bytes : Bytes
inv_eight_bytes =
    0x79 ∷ 0x2f ∷ 0xdc ∷ 0xe2 ∷ 0x29 ∷ 0xe5 ∷ 0x06 ∷ 0x61 ∷ 0xd0 ∷ 0xda ∷ 0x1c ∷ 0x7d ∷ 0xb3 ∷ 0x9d
    ∷ 0xd3 ∷ 0x07 ∷ 0x00 ∷ 0x00 ∷ 0x00 ∷ 0x00 ∷ 0x00 ∷ 0x00 ∷ 0x00 ∷ 0x00 ∷ 0x00 ∷ 0x00 ∷ 0x00
    ∷ 0x00 ∷ 0x00 ∷ 0x00 ∷ 0x00 ∷ 0x06 ∷ []

pub record Curve : Type 1 where
  pub Scalar : Type 0
  pub Point : Type 0
  -- the value of a new Scalar
  pub zero : Scalar
  -- Scalar.Bytes, SetCanonicalBytes, SetUniformBytes, SetBytesWithClamping
  pub scalar_bytes : Scalar → Bytes
  pub set_canonical : Bytes → Option Scalar
  pub set_uniform : Bytes → Option Scalar
  pub set_clamped : Bytes → Option Scalar
  -- Scalar.Add, Subtract and Multiply
  pub add : Scalar → Scalar → Scalar
  pub subtract : Scalar → Scalar → Scalar
  pub multiply : Scalar → Scalar → Scalar
  -- Point.Bytes, SetBytes, ScalarMult, ScalarBaseMult and Add
  pub point_bytes : Point → Bytes
  pub set_point : Bytes → Option Point
  pub scalar_mult : Scalar → Point → Point
  pub scalar_base_mult : Scalar → Point
  pub point_add : Point → Point → Point
  -- NewGeneratorPoint
  pub generator : Point
  -- ref10: a point of 32 bytes, a product and a sum of such; `ge_from_hash` is the map of a
  -- hash to a point of the whole curve
  pub ge_from_bytes : Bytes → Option Point
  pub ge_to_bytes : Point → Bytes
  pub ge_scalar_mult : Bytes → Point → Point
  pub ge_scalar_mult_base : Bytes → Point
  pub ge_mul8 : Point → Point
  pub ge_add : Point → Point → Point
  pub ge_sub : Point → Point → Point
  pub ge_from_hash : Bytes → Point
  -- ref10: scalars of 32 bytes
  pub sc_reduce32 : Bytes → Bytes
  pub sc_add : Bytes → Bytes → Bytes
  pub sc_sub : Bytes → Bytes → Bytes
  -- ref10: the group element that FromBytes leaves, whatever it returns, and the sums
  -- a G + b B + c C and a A + b B + c C, as bytes
  pub ge_read : Bytes → Point
  pub ge_triple_base : Bytes → Bytes → Point → Bytes → Point → Bytes
  pub ge_triple : Bytes → Point → Bytes → Point → Bytes → Point → Bytes

-- What both libraries document. Points are looked at in the subgroup of the base point only, where
-- a scalar may be reduced; `of_nat` reduces one.
pub record IsCurve (c : Curve) : Type 0 where
  pub of_nat : ℕ → Curve.Scalar c
  pub log : Bytes → Curve.Scalar c
  pub h_log : Curve.Scalar c
  -- the two encodings
  pub canonical : (s : Curve.Scalar c) → Curve.set_canonical c (Curve.scalar_bytes c s) ≡ some s
  pub uniform : (b : Bytes) → length b ≡ 64 → Curve.set_uniform c b ≡ some (of_nat (le_value b))
  pub reduced : (n : ℕ) → Curve.set_canonical c (le_bytes 32 (n % group_order)) ≡ some (of_nat n)
  pub scalar_32 : (s : Curve.Scalar c) → length (Curve.scalar_bytes c s) ≡ 32
  pub decodable : (p : Curve.Point c) → Curve.set_point c (Curve.point_bytes c p) ≡ some p
  pub point_32 : (p : Curve.Point c) → length (Curve.point_bytes c p) ≡ 32
  -- the ring of the scalars
  pub add_comm : (a b : Curve.Scalar c) → Curve.add c a b ≡ Curve.add c b a
  pub add_assoc :
      (a b d : Curve.Scalar c) → Curve.add c (Curve.add c a b) d ≡ Curve.add c a (Curve.add c b d)
  pub zero-add : (a : Curve.Scalar c) → Curve.add c (Curve.zero c) a ≡ a
  pub of_nat-add : (m n : ℕ) → of_nat (m + n) ≡ Curve.add c (of_nat m) (of_nat n)
  pub subtract-add : (a b : Curve.Scalar c) → Curve.add c (Curve.subtract c a b) b ≡ a
  pub mul_comm : (a b : Curve.Scalar c) → Curve.multiply c a b ≡ Curve.multiply c b a
  pub mul_assoc :
      (a b d : Curve.Scalar c)
      → Curve.multiply c (Curve.multiply c a b) d ≡ Curve.multiply c a (Curve.multiply c b d)
  pub mul-add :
      (a b d : Curve.Scalar c)
      → Curve.multiply c a (Curve.add c b d)
        ≡ Curve.add c (Curve.multiply c a b) (Curve.multiply c a d)
  -- multiples of the base point
  pub mult-base :
      (a b : Curve.Scalar c)
      → Curve.scalar_mult c a (Curve.scalar_base_mult c b)
        ≡ Curve.scalar_base_mult c (Curve.multiply c a b)
  pub add-base :
      (a b : Curve.Scalar c)
      → Curve.point_add c (Curve.scalar_base_mult c a) (Curve.scalar_base_mult c b)
        ≡ Curve.scalar_base_mult c (Curve.add c a b)
  -- the second generator of the commitments
  pub h_decodable : Curve.set_point c commitment_base ≡ some (Curve.scalar_base_mult c h_log)
  -- ref10 computes the same, on bytes
  pub ge_decodable : (p : Curve.Point c) → Curve.ge_from_bytes c (Curve.point_bytes c p) ≡ some p
  pub ge_to_bytes_lem : (p : Curve.Point c) → Curve.ge_to_bytes c p ≡ Curve.point_bytes c p
  pub ge_mult_lem :
      (s : Curve.Scalar c) (p : Curve.Point c)
      → Curve.ge_scalar_mult c (Curve.scalar_bytes c s) p ≡ Curve.scalar_mult c s p
  pub ge_mult_base_lem :
      (s : Curve.Scalar c)
      → Curve.ge_scalar_mult_base c (Curve.scalar_bytes c s) ≡ Curve.scalar_base_mult c s
  pub ge_mul8_lem : (p : Curve.Point c) → Curve.ge_mul8 c p ≡ Curve.scalar_mult c (of_nat 8) p
  pub ge_add_lem : (p q : Curve.Point c) → Curve.ge_add c p q ≡ Curve.point_add c p q
  pub ge_sub_lem :
      (a b : Curve.Scalar c)
      → Curve.ge_sub c (Curve.scalar_base_mult c a) (Curve.scalar_base_mult c b)
        ≡ Curve.scalar_base_mult c (Curve.subtract c a b)
  pub hash_log :
      (b : Bytes) → Curve.ge_mul8 c (Curve.ge_from_hash c b) ≡ Curve.scalar_base_mult c (log b)
  pub sc_reduce32_lem :
      (b : Bytes) → Curve.sc_reduce32 c b ≡ Curve.scalar_bytes c (of_nat (le_value b))
  pub sc_add_lem :
      (a b : Curve.Scalar c)
      → Curve.sc_add c (Curve.scalar_bytes c a) (Curve.scalar_bytes c b)
        ≡ Curve.scalar_bytes c (Curve.add c a b)
  pub sc_sub_lem :
      (a b : Curve.Scalar c)
      → Curve.sc_sub c (Curve.scalar_bytes c a) (Curve.scalar_bytes c b)
        ≡ Curve.scalar_bytes c (Curve.subtract c a b)
  pub scalar_value : (s : Curve.Scalar c) → of_nat (le_value (Curve.scalar_bytes c s)) ≡ s
  pub reduced_value :
      (b : Bytes) → Curve.set_canonical c (Curve.sc_reduce32 c b) ≡ some (of_nat (le_value b))
  pub inv_eight : Curve.Scalar c
  pub inv_eight_lem : inv_eight_bytes ≡ Curve.scalar_bytes c inv_eight
  pub eight_inverse :
      (a : Curve.Scalar c) → Curve.multiply c (of_nat 8) (Curve.multiply c inv_eight a) ≡ a
  pub ge_read_lem : (p : Curve.Point c) → Curve.ge_read c (Curve.point_bytes c p) ≡ p
  pub ge_triple_base_lem :
      (a b d : Curve.Scalar c) (p q : Curve.Point c)
      → Curve.ge_triple_base c
          (Curve.scalar_bytes c a)
          (Curve.scalar_bytes c b)
          p
          (Curve.scalar_bytes c d)
          q
        ≡ Curve.point_bytes c (
            Curve.point_add c
              (Curve.scalar_base_mult c a)
              (Curve.point_add c (Curve.scalar_mult c b p) (Curve.scalar_mult c d q)))
  pub ge_triple_lem :
      (a b d : Curve.Scalar c) (h p q : Curve.Point c)
      → Curve.ge_triple c
          (Curve.scalar_bytes c a)
          h
          (Curve.scalar_bytes c b)
          p
          (Curve.scalar_bytes c d)
          q
        ≡ Curve.point_bytes c (
            Curve.point_add c
              (Curve.scalar_mult c a h)
              (Curve.point_add c (Curve.scalar_mult c b p) (Curve.scalar_mult c d q)))
