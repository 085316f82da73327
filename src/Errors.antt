-- ===== src/Errors.antt =====
-- include/obscuraproto/errors.hpp: the exception classes, and methods that may throw.
-- A method of an object returns its result, or the exception, with the object as it leaves it,
-- so what a method changed before it threw stays changed.
use obscura_proto.Common.{String, ◌≡◌, ◌⊎◌, inl, inr, refl, Bool, true, false, Option, none, some}

-- Each class with the message that the throw site gives. `null_pointer` is no class: it marks the
-- undefined behaviour of a null pointer that is dereferenced.
pub data Exception : Type 0 where
  runtime_error : String → Exception
  logic_error : String → Exception
  invalid_argument : String → Exception
  timeout_error : String → Exception
  null_pointer : Exception

pub data Result {ℓ} (A : Type ℓ) : Type ℓ where
  ok : A → Result A
  err : Exception → Result A

-- Statements in sequence: what follows a throw does not run.
infixl 5 ◌>>=◌
abbrev pub ◌>>=◌ {ℓ κ} :
    {Value : Type ℓ} {Next : Type κ} → Result Value → (Value → Result Next) → Result Next
err thrown >>= continue = err thrown
ok value >>= continue = continue value

infixl 5 ◌>>◌
abbrev pub ◌>>◌ {κ} : {Next : Type κ} → Result (Unit {0}) → Result Next → Result Next
done >> rest = done >>= λ _. rest

-- `if (!test) throw e;`
abbrev pub check : Bool → Exception → Result (Unit {0})
check false thrown = err thrown
check true thrown = ok tt

-- A call of a library that reports failure, with the exception that the code throws then.
abbrev pub or_throw {ℓ} : {A : Type ℓ} → Option A → Exception → Result A
or_throw none e = err e
or_throw (some a) e = ok a

pub or_throw-eq-ok {ℓ} :
    {A : Type ℓ} (o : Option A) (e : Exception) {a : A} → or_throw o e ≡ ok a → o ≡ some a
or_throw-eq-ok none e h = cc
or_throw-eq-ok (some a) e h = cc

-- Inversion of a bind that succeeds.
pub >>=-eq-ok {ℓ κ} :
    {Value : Type ℓ} {Next : Type κ} (m : Result Value) (f : Value → Result Next) {b : Next}
    → (m >>= f) ≡ ok b
    → (a : Value) × (m ≡ ok a) × (f a ≡ ok b)
>>=-eq-ok (err thrown) f h = cc
>>=-eq-ok (ok value) f h = (value, refl, h)

pub check-eq-ok : (b : Bool) (e : Exception) {u : Unit {0}} → check b e ≡ ok u → b ≡ true
check-eq-ok true e h = refl
check-eq-ok false e h = cc

-- To split on the outcome of a call and keep the equation.
pub Result-cases {ℓ} :
    {A : Type ℓ} (r : Result A) → ((a : A) × (r ≡ ok a)) ⊎ ((e : Exception) × (r ≡ err e))
Result-cases (ok a) = inl (a, refl)
Result-cases (err e) = inr (e, refl)
