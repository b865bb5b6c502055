-- ===== src/Prelude/Result.antt =====
-- Python functions that may raise: a result is a value or an exception.
use mathlib.Core.Bool.{Bool, true, false}
use mathlib.Core.Logic.{◌⊎◌, inl, inr}
use mathlib.Core.Path.{◌≡◌, refl}
use labtris.Prelude.Tests.{if◌then◌else◌}

-- the exceptions that the modelled code raises or lets through
pub data Error : Type 0 where
  -- struct.error: a value out of range of its field, or a short buffer
  struct_error : Error
  -- ValueError, here of `OpCode(x)`, `PdcType(x)` and `base36`
  value_error : Error
  -- KeyError of `d.pop(k)` with no default
  key_error : Error
  -- RuntimeError
  runtime_error : Error
  -- OSError, raised by a send
  os_error : Error
  -- TypeError, of a list or a dict where a hashable value is wanted
  type_error : Error
  -- NetdFault with the code EINVAL
  einval : Error
  -- an HTTP answer that the request is at fault
  bad_request : Error
  -- the HTTP answer of an internal error
  internal : Error
  -- IndexError
  index_error : Error
  -- MultipleResultsFound of a query for one row
  multiple_rows : Error
  -- AttributeError, of a value without the method that is called
  attribute_error : Error
  -- StopIteration of `next` with no default
  stop_iteration : Error
  -- IntegrityError of the database
  integrity_error : Error
  -- OverflowError, of an infinite float as an int
  overflow_error : Error

pub data Result {ℓ} (A : Type ℓ) : Type ℓ where
  ok : A → Result A
  err : Error → Result A

-- To split on a computed result and keep the equation.
pub Result-cases {ℓ} :
    {A : Type ℓ} (r : Result A) → ((a : A) × (r ≡ ok a)) ⊎ ((e : Error) × (r ≡ err e))
Result-cases (ok a) = inl (a, refl)
Result-cases (err e) = inr (e, refl)

abbrev pub succeeds {ℓ} : {A : Type ℓ} → Result A → Bool
succeeds (ok a) = true
succeeds (err e) = false

pub ok_value {ℓ} : {A : Type ℓ} (r : Result A) → succeeds r ≡ true → (a : A) × (r ≡ ok a)
ok_value (ok a) h = (a, refl)
ok_value (err e) h = cc

-- an exception goes through, and a value goes on
module _ {ℓ κ} {A : Type ℓ} {B : Type κ} where
  infixl 5 ◌>>=◌
  abbrev pub ◌>>=◌ : Result A → (A → Result B) → Result B
  err e >>= next = err e
  ok a >>= next = next a

  pub >>=-eq-ok :
      (m : Result A) (next : A → Result B) {b : B}
      → (m >>= next) ≡ ok b
      → (a : A) × (m ≡ ok a) × (next a ≡ ok b)
  >>=-eq-ok (err e) next h = cc
  >>=-eq-ok (ok a) next h = (a, refl, h)

-- a value with a property, or an exception with one
module _ {ℓ} {A : Type ℓ} (E : Error → Type 0) where
  abbrev pub Outcome : (A → Type 0) → Result A → Type 0
  Outcome P (ok a) = P a
  Outcome P (err e) = E e

  pub Outcome-weaken :
      (P Q : A → Type 0) (m : Result A) → Outcome P m → ((a : A) → P a → Q a) → Outcome Q m
  Outcome-weaken P Q (ok a) p h = h a p
  Outcome-weaken P Q (err e) p h = p

pub Outcome-bind {ℓ κ} :
    {A : Type ℓ} {B : Type κ} (E : Error → Type 0) (P : A → Type 0) (Q : B → Type 0) (m : Result A)
    (f : A → Result B)
    → Outcome E P m
    → ((a : A) → P a → Outcome E Q (f a))
    → Outcome E Q (m >>= f)
Outcome-bind E P Q (ok a) f p h = h a p
Outcome-bind E P Q (err e) f p h = p

-- `if not b: raise e`
abbrev pub guard : Bool → Error → Result (Unit {0})
guard b e = if b then ok tt else err e

infixl 5 ◌>>◌
abbrev pub ◌>>◌ {ℓ} : {B : Type ℓ} → Result (Unit {0}) → Result B → Result B
first >> second = first >>= λ _. second
