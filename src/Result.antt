-- ===== src/Result.antt =====
-- What a function returns or throws. A Convex mutation that throws is rolled back, so an error
-- carries no state.
use api_provider.Prelude.{◌≡◌, refl, ap, String, Bool, true, false, Option, none, some, arith}

pub data Error : Type 0 where
  -- `new ConvexError(message)`, shown to the caller.
  convex_error : String → Error
  -- `new Error(message)`.
  failure : String → Error
  -- `.unique()` met a second document.
  not_unique : Error

pub data Result {ℓ} (Value : Type ℓ) : Type ℓ where
  err : Error → Result Value
  ok : Value → Result Value

-- The rest of a handler runs on what an `await` gives, unless that throws.
module _ {ℓ κ} {Value : Type ℓ} {Answer : Type κ} where
  infixl 5 ◌>>=◌
  abbrev pub ◌>>=◌ : Result Value → (Value → Result Answer) → Result Answer
  err e >>= rest = err e
  ok value >>= rest = rest value

  pub >>=-ok :
      {value : Value} (first : Result Value) (rest : Value → Result Answer)
      → first ≡ ok value
      → (first >>= rest) ≡ rest value
  >>=-ok first rest returned = ap (λ r. r >>= rest) returned

  -- Where the whole returned, so did its first part, and the rest on that part's value.
  pub >>=-eq-ok :
      {answer : Answer} (first : Result Value) (rest : Value → Result Answer)
      → (first >>= rest) ≡ ok answer
      → (value : Value) × (first ≡ ok value) × (rest value ≡ ok answer)
  >>=-eq-ok (err e) rest returned = cc
  >>=-eq-ok (ok value) rest returned = (value, refl, returned)

infixl 5 ◌>>◌
abbrev pub ◌>>◌ {κ} : {Answer : Type κ} → Result (Unit {0}) → Result Answer → Result Answer
err e >> rest = err e
ok u >> rest = rest

-- `if (!test) throw e`
abbrev pub require : Bool → Error → Result (Unit {0})
require true e = ok tt
require false e = err e

-- What holds past a check.
pub require-eq-ok {κ} :
    {Answer : Type κ} {answer : Answer} (test : Bool) (e : Error) (rest : Result Answer)
    → (require test e >> rest) ≡ ok answer
    → (test ≡ true) × (rest ≡ ok answer)
require-eq-ok true e rest h = (refl, h)
require-eq-ok false e rest h = cc

-- `if (value === null) throw e`
abbrev pub or_throw {ℓ} : {A : Type ℓ} → Option A → Error → Result A
or_throw none e = err e
or_throw (some a) e = ok a

pub ok-injective {ℓ κ} :
    {A : Type ℓ} {B : Type κ} {a c : A} {b d : B}
    → ◌≡◌ {A = Result (A × B)} (ok (a, b)) (ok (c, d))
    → (a ≡ c) × (b ≡ d)
ok-injective h = (ground arith, ground arith)

pub ok-cancel {ℓ} : {A : Type ℓ} {a b : A} → ◌≡◌ {A = Result A} (ok a) (ok b) → a ≡ b
ok-cancel h = ground arith

-- What is there past a check for null.
pub or_throw-eq-ok {ℓ} :
    {A : Type ℓ} {a : A} (o : Option A) (e : Error) → or_throw o e ≡ ok a → o ≡ some a
or_throw-eq-ok none e h = cc
or_throw-eq-ok (some a) e h = ap some (ok-cancel h)

-- An action that throws does not undo the mutations that have run: it gives a state in any case.
module _ {ℓ κ μ} {Value : Type ℓ} {Answer : Type κ} {State : Type μ} where
  unfoldable pub attempt :
      Result Value → State → (Value → Result Answer × State) → Result Answer × State
  attempt (err e) s next = (err e, s)
  attempt (ok value) s next = next value
