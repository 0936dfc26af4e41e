-- ===== src/Curve/Residue.antt =====
-- The group of the residues modulo the order, with 1 for the base point: what the laws of a curve
-- say holds of it.
use mathlib.Core.HLevel.{Σ_prop_path}
use native.Mathlib.Bridge.{le_prop}
use native.Mathlib.Nat.{
  mod-lt, mod-eq_of_lt, mod-add-mod, add-mod-mod, mod-add-div, add-mul-mod_self_left,
}
use go_monero.Base.{ℕ, ◌+◌, ◌-◌, ◌*◌, ◌/◌, ◌%◌, ◌^◌, ◌<◌, ◌≡◌, refl, ap, sym, ◌∙◌, some, arith}
use go_monero.Base.Bytes.{Bytes, le_bytes, le_value, length-le_bytes, le_value-le_bytes}
use go_monero.Curve.{Curve, IsCurve, group_order, commitment_base, inv_eight_bytes}

module _ (m : ℕ) (pos : 0 < m) where
  abbrev pub Residue : Type 0
  Residue = (n : ℕ) × (n < m)

  unfoldable pub residue : ℕ → Residue
  residue n = (n % m, mod-lt n pos)

  residue_eq : (a b : ℕ) → a % m ≡ b % m → residue a ≡ residue b
  unfolding residue
  residue_eq a b e = Σ_prop_path (λ n. le_prop) e

  residue_self : (r : Residue) → residue r.0 ≡ r
  unfolding residue
  residue_self r = Σ_prop_path (λ n. le_prop) (mod-eq_of_lt r.1)

  mod-mul-mod : (x c : ℕ) → (x % m) * c % m ≡ x * c % m
  mod-mul-mod x c =
      sym (add-mul-mod_self_left ((x % m) * c) m ((x / m) * c))
      ∙ ap (λ (t : ℕ). t % m) (grind (arith, ap (λ (t : ℕ). t * c) (mod-add-div x m)))

  mul-mod-mod : (x c : ℕ) → x * (c % m) % m ≡ x * c % m
  mul-mod-mod x c =
      ap (λ (t : ℕ). t % m) {x = x * (c % m)} {y = (c % m) * x} (grind arith)
      ∙ mod-mul-mod c x
      ∙ ap (λ (t : ℕ). t % m) {x = c * x} {y = x * c} (grind arith)

  unfoldable pub plus : Residue → Residue → Residue
  plus a b = residue (a.0 + b.0)

  unfoldable pub minus : Residue → Residue → Residue
  minus a b = residue (a.0 + (m - b.0))

  unfoldable pub times : Residue → Residue → Residue
  times a b = residue (a.0 * b.0)

  pub plus_comm : (a b : Residue) → plus a b ≡ plus b a
  unfolding plus
  plus_comm a b = ap residue (omega arith)

  pub plus_assoc : (a b d : Residue) → plus (plus a b) d ≡ plus a (plus b d)
  unfolding plus residue
  plus_assoc a b d = residue_eq _ _ (
      mod-add-mod (a.0 + b.0) m d.0
      ∙ ap (λ (t : ℕ). t % m) (omega arith)
      ∙ sym (add-mod-mod a.0 (b.0 + d.0) m))

  pub zero-plus : (a : Residue) → plus (residue 0) a ≡ a
  unfolding plus residue
  zero-plus a =
      residue_eq (0 % m + a.0) (0 + a.0) (mod-add-mod 0 m a.0)
      ∙ ap residue (omega arith)
      ∙ residue_self a

  pub residue-plus : (a b : ℕ) → residue (a + b) ≡ plus (residue a) (residue b)
  unfolding plus residue
  residue-plus a b =
      residue_eq (a + b) (a % m + b % m) (sym (mod-add-mod a m b) ∙ sym (add-mod-mod (a % m) b m))

  pub minus-plus : (a b : Residue) → plus (minus a b) b ≡ a
  unfolding plus minus residue
  minus-plus a b =
      residue_eq _ _ (
        mod-add-mod (a.0 + (m - b.0)) m b.0
        ∙ ap (λ (t : ℕ). t % m) {y = a.0 + m * 1} (omega (arith, b.1))
        ∙ add-mul-mod_self_left a.0 m 1)
      ∙ residue_self a

  pub times_comm : (a b : Residue) → times a b ≡ times b a
  unfolding times
  times_comm a b = ap residue (grind arith)

  pub times_assoc : (a b d : Residue) → times (times a b) d ≡ times a (times b d)
  unfolding times residue
  times_assoc a b d = residue_eq _ _ (
      mod-mul-mod (a.0 * b.0) d.0
      ∙ ap (λ (t : ℕ). t % m) (grind arith)
      ∙ sym (mul-mod-mod a.0 (b.0 * d.0)))

  pub one-times : (a : Residue) → times (residue 1) a ≡ a
  unfolding times residue
  one-times a =
      residue_eq ((1 % m) * a.0) (1 * a.0) (mod-mul-mod 1 a.0)
      ∙ ap residue (omega arith)
      ∙ residue_self a

  pub times-plus : (a b d : Residue) → times a (plus b d) ≡ plus (times a b) (times a d)
  unfolding times plus residue
  times-plus a b d = residue_eq _ _ (
      mul-mod-mod a.0 (b.0 + d.0)
      ∙ ap (λ (t : ℕ). t % m) (grind arith)
      ∙ sym (mod-add-mod (a.0 * b.0) m (a.0 * d.0))
      ∙ sym (add-mod-mod (a.0 * b.0 % m) (a.0 * d.0) m))

-- The curve of these residues. A point is its own logarithm, and a hash is its value.
pub below : 0 < group_order
below = omega arith

abbrev pub Element : Type 0
Element = Residue group_order below

abbrev pub element : ℕ → Element
element = residue group_order below

abbrev pub bytes_of : Element → Bytes
bytes_of e = le_bytes 32 e.0

abbrev pub of_bytes : Bytes → Element
of_bytes b = element (le_value b)

unfoldable pub residues : Curve
residues = record {
  Scalar = Element;
  Point = Element;
  zero = element 0;
  scalar_bytes = bytes_of;
  set_canonical = λ b. some (of_bytes b);
  set_uniform = λ b. some (of_bytes b);
  set_clamped = λ b. some (of_bytes b);
  add = plus group_order below;
  subtract = minus group_order below;
  multiply = times group_order below;
  point_bytes = bytes_of;
  set_point = λ b. some (of_bytes b);
  scalar_mult = times group_order below;
  scalar_base_mult = λ e. e;
  point_add = plus group_order below;
  generator = element 1;
  ge_from_bytes = λ b. some (of_bytes b);
  ge_to_bytes = bytes_of;
  ge_scalar_mult = λ b p. times group_order below (of_bytes b) p;
  ge_scalar_mult_base = of_bytes;
  ge_mul8 = times group_order below (element 8);
  ge_add = plus group_order below;
  ge_sub = minus group_order below;
  ge_from_hash = of_bytes;
  sc_reduce32 = λ b. bytes_of (of_bytes b);
  sc_add = λ a b. bytes_of (plus group_order below (of_bytes a) (of_bytes b));
  sc_sub = λ a b. bytes_of (minus group_order below (of_bytes a) (of_bytes b));
  ge_read = of_bytes;
  ge_triple_base = λ a b p d q. bytes_of (
      plus group_order below (of_bytes a) (
        plus group_order below (times group_order below (of_bytes b) p)
          (times group_order below (of_bytes d) q)));
  ge_triple = λ a h b p d q. bytes_of (
      plus group_order below (times group_order below (of_bytes a) h) (
        plus group_order below (times group_order below (of_bytes b) p)
          (times group_order below (of_bytes d) q)));
}

pub of_bytes-bytes_of : (e : Element) → of_bytes (bytes_of e) ≡ e
of_bytes-bytes_of e =
    ap element (le_value-le_bytes 32 e.0 (lt_of_order e.1)) ∙ residue_self group_order below e
  where
    lt_of_order : {n : ℕ} → n < group_order → n < 256 ^ 32
    lt_of_order h = omega arith

of_bytes-reduced : (n : ℕ) → of_bytes (le_bytes 32 (n % group_order)) ≡ element n
unfolding residue
of_bytes-reduced n = of_bytes-bytes_of (element n)

both :
    (f : Element → Element → Element) (a b : Element)
    → f (of_bytes (bytes_of a)) (of_bytes (bytes_of b)) ≡ f a b
both f a b =
    ap (λ (x : Element). f x (of_bytes (bytes_of b))) (of_bytes-bytes_of a)
    ∙ ap (f a) (of_bytes-bytes_of b)

eight_inv_eight : times group_order below (element 8) (of_bytes inv_eight_bytes) ≡ element 1
unfolding times residue le_value
eight_inv_eight = residue_eq group_order below ((element 8).0 * (of_bytes inv_eight_bytes).0) 1 refl

eight_times :
    (a : Element)
    → times group_order below (element 8) (times group_order below (of_bytes inv_eight_bytes) a) ≡ a
eight_times a =
    sym (times_assoc group_order below (element 8) (of_bytes inv_eight_bytes) a)
    ∙ ap (λ (e : Element). times group_order below e a) eight_inv_eight
    ∙ one-times group_order below a

inv_eight-bytes : inv_eight_bytes ≡ bytes_of (of_bytes inv_eight_bytes)
unfolding residue le_bytes le_value
inv_eight-bytes = refl

three :
    (f : Element → Element → Element → Bytes) (a b d : Element)
    → f (of_bytes (bytes_of a)) (of_bytes (bytes_of b)) (of_bytes (bytes_of d)) ≡ f a b d
three f a b d = rw (of_bytes-bytes_of a, of_bytes-bytes_of b, of_bytes-bytes_of d)

pub residues-IsCurve : IsCurve residues
unfolding residues
residues-IsCurve = record {
  of_nat = element;
  log = λ b. times group_order below (element 8) (of_bytes b);
  canonical = λ s. ap some (of_bytes-bytes_of s);
  uniform = λ b h. refl;
  reduced = λ n. ap some (of_bytes-reduced n);
  scalar_32 = λ s. length-le_bytes 32 s.0;
  decodable = λ p. ap some (of_bytes-bytes_of p);
  point_32 = λ p. length-le_bytes 32 p.0;
  h_log = of_bytes commitment_base;
  zero-add = zero-plus group_order below;
  of_nat-add = residue-plus group_order below;
  h_decodable = refl;
  add_comm = plus_comm group_order below;
  add_assoc = plus_assoc group_order below;
  subtract-add = minus-plus group_order below;
  mul_comm = times_comm group_order below;
  mul_assoc = times_assoc group_order below;
  mul-add = times-plus group_order below;
  mult-base = λ a b. refl;
  add-base = λ a b. refl;
  ge_decodable = λ p. ap some (of_bytes-bytes_of p);
  ge_to_bytes_lem = λ p. refl;
  ge_mult_lem = λ s p. ap (λ (e : Element). times group_order below e p) (of_bytes-bytes_of s);
  ge_mult_base_lem = of_bytes-bytes_of;
  ge_mul8_lem = λ p. refl;
  ge_add_lem = λ p q. refl;
  ge_sub_lem = λ a b. refl;
  hash_log = λ b. refl;
  sc_reduce32_lem = λ b. refl;
  sc_add_lem = λ a b. ap bytes_of (both (plus group_order below) a b);
  sc_sub_lem = λ a b. ap bytes_of (both (minus group_order below) a b);
  scalar_value = of_bytes-bytes_of;
  reduced_value = λ b. ap some (of_bytes-bytes_of (of_bytes b));
  inv_eight = of_bytes inv_eight_bytes;
  inv_eight_lem = inv_eight-bytes;
  eight_inverse = eight_times;
  ge_read_lem = of_bytes-bytes_of;
  ge_triple_base_lem = λ a b d p q.
      three
        (λ x y z. bytes_of (
          plus group_order below x
            (plus group_order below (times group_order below y p) (times group_order below z q))))
        a b d;
  ge_triple_lem = λ a b d h p q.
      three
        (λ x y z. bytes_of (
          plus group_order below (times group_order below x h)
            (plus group_order below (times group_order below y p) (times group_order below z q))))
        a b d;
}
