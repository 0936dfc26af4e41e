-- ===== src/Base/Results.antt =====
-- Outcomes of a Go function: a value, an error that is returned, or a panic.
use go_monero.Base.Tests.{if◌then◌else◌}
use mathlib.Core.Bool.{Bool, true, false}
use mathlib.Core.Path.{◌≡◌, refl, subst}
use mathlib.Core.Logic.{◌≢◌}

-- Why the program panics: the run-time's own faults, and calls of `panic`.
pub data Panic : Type 0 where
  -- an index or a slice bound beyond the length, and a nil interface that is called
  out_of_range nil_pointer : Panic
  -- `panic(...)` in the source
  int64_varint malformed_mask unknown_type wrong_type too_big unsupported : Panic

-- `out_of_fuel` has no counterpart in the program: a bounded recursion of the model gave up.
pub data Result {ℓ κ} (E : Type ℓ) (A : Type κ) : Type (ℓ ⊔ κ) where
  ok : A → Result E A
  err : E → Result E A
  panic : Panic → Result E A
  out_of_fuel : Result E A

-- An error of the program where the test fails.
abbrev pub guard {ℓ} : {E : Type ℓ} → Bool → E → Result E (Unit {0})
guard test failure = if test then ok tt else err failure

infixl 5 ◌>>=◌ ◌>>◌
abbrev pub ◌>>=◌ {ℓ κ κ'} :
    {E : Type ℓ} {A : Type κ} {B : Type κ'} → Result E A → (A → Result E B) → Result E B
panic p >>= next = panic p
out_of_fuel >>= next = out_of_fuel
err e >>= next = err e
ok a >>= next = next a

abbrev pub ◌>>◌ {ℓ κ} : {E : Type ℓ} {B : Type κ} → Result E (Unit {0}) → Result E B → Result E B
first >> second = first >>= λ _. second

-- The run kept within its fuel, and `P` holds of its value if it has one.
pub data Ensures {ℓ κ μ} {E : Type ℓ} {A : Type κ} (P : A → Type μ)
    : Result E A → Type (ℓ ⊔ κ ⊔ μ) where
  holds : {a : A} → P a → Ensures P (ok a)
  failed : {e : E} → Ensures P (err e)
  panicked : {p : Panic} → Ensures P (panic p)

module _ {ℓ κ μ} {E : Type ℓ} {A : Type κ} {P : A → Type μ} where
  pub Ensures-ok : {r : Result E A} {a : A} → Ensures P r → r ≡ ok a → P a
  Ensures-ok (holds h) e = subst P (cc) h
  Ensures-ok failed e = cc
  Ensures-ok panicked e = cc

  pub Ensures-ne-out_of_fuel : {r : Result E A} → Ensures P r → r ≢ out_of_fuel
  Ensures-ne-out_of_fuel (holds h) = cc
  Ensures-ne-out_of_fuel failed = cc
  Ensures-ne-out_of_fuel panicked = cc

  pub Ensures-bind {κ' μ'} :
      {B : Type κ'} {Q : B → Type μ'} {r : Result E A} {f : A → Result E B}
      → Ensures P r
      → ((a : A) → P a → Ensures Q (f a))
      → Ensures Q (r >>= f)
  Ensures-bind (holds {a} h) k = k a h
  Ensures-bind failed k = failed
  Ensures-bind panicked k = panicked

  pub Ensures-weaken {μ'} :
      {Q : A → Type μ'} {r : Result E A} → Ensures P r → ((a : A) → P a → Q a) → Ensures Q r
  Ensures-weaken (holds {a} h) k = holds (k a h)
  Ensures-weaken failed k = failed
  Ensures-weaken panicked k = panicked

  pub Ensures-if :
      (b : Bool) {x y : Result E A}
      → (b ≡ true → Ensures P x)
      → (b ≡ false → Ensures P y)
      → Ensures P (if b then x else y)
  Ensures-if true h k = h refl
  Ensures-if false h k = k refl

pub guard-Ensures {ℓ} :
    {E : Type ℓ} (b : Bool) (e : E) → Ensures (λ (u : Unit {0}). b ≡ true) (guard b e)
guard-Ensures true e = holds refl
guard-Ensures false e = failed

-- The run returned to its caller: `P` holds of its value if it has one, and it did not panic.
pub data Answers {ℓ κ μ} {E : Type ℓ} {A : Type κ} (P : A → Type μ)
    : Result E A → Type (ℓ ⊔ κ ⊔ μ) where
  answered : {a : A} → P a → Answers P (ok a)
  refused : {e : E} → Answers P (err e)

module _ {ℓ κ μ} {E : Type ℓ} {A : Type κ} {P : A → Type μ} where
  pub Answers-bind {κ' μ'} :
      {B : Type κ'} {Q : B → Type μ'} {r : Result E A} {f : A → Result E B}
      → Answers P r
      → ((a : A) → P a → Answers Q (f a))
      → Answers Q (r >>= f)
  Answers-bind (answered {a} h) k = k a h
  Answers-bind refused k = refused

  pub Answers-if :
      (b : Bool) {x y : Result E A}
      → (b ≡ true → Answers P x)
      → (b ≡ false → Answers P y)
      → Answers P (if b then x else y)
  Answers-if true h k = h refl
  Answers-if false h k = k refl

-- A chain that succeeds has a first part that does.
pub >>=-eq-ok {ℓ κ κ'} :
    {E : Type ℓ} {A : Type κ} {B : Type κ'} (first : Result E A) (next : A → Result E B) {z : B}
    → (first >>= next) ≡ ok z
    → (a : A) × (first ≡ ok a) × (next a ≡ ok z)
>>=-eq-ok (panic p) next h = cc
>>=-eq-ok out_of_fuel next h = cc
>>=-eq-ok (err e) next h = cc
>>=-eq-ok (ok a) next h = (a, refl, h)

-- A run has one value.
pub ok_unique {ℓ κ} :
    {E : Type ℓ} {A : Type κ} {r : Result E A} {a b : A} → r ≡ ok a → r ≡ ok b → a ≡ b
ok_unique h k = cc

-- The run kept within its fuel.
abbrev pub Finishes {ℓ κ} : {E : Type ℓ} {A : Type κ} → Result E A → Type (ℓ ⊔ κ)
Finishes r = Ensures (λ _. Unit {0}) r

module _ {ℓ κ} {E : Type ℓ} {A : Type κ} where
  pub Finishes-bind {κ'} :
      {B : Type κ'} {r : Result E A} {f : A → Result E B}
      → Finishes r
      → ((a : A) → Finishes (f a))
      → Finishes (r >>= f)
  Finishes-bind h k = Ensures-bind h λ a _. k a

  pub Finishes-if :
      (b : Bool) {x y : Result E A} → Finishes x → Finishes y → Finishes (if b then x else y)
  Finishes-if b h k = Ensures-if b (λ _. h) (λ _. k)
