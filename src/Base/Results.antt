-- ===== src/Base/Results.antt =====
-- Go's errors, and the ways in which a call ends.
use Prim.Native.String.{String}
use mathlib.Core.Path.{◌≡◌, refl}
use mathlib.Core.Logic.{◌⊎◌, inl, inr}
use mathlib.Core.Option.{Option, none, some}

-- `errors.New` and `fmt.Errorf` make a message, `errors.Wrap` and `%w` put one round an error.
pub data GoError : Type 0 where
  message : String → GoError
  wrap : String → GoError → GoError

-- The pair `(value, error)` of a Go function.
pub data Result {ℓ} (A : Type ℓ) : Type ℓ where
  ok : A → Result A
  err : GoError → Result A

infixl 5 ◌>>=◌
abbrev pub ◌>>=◌ {ℓ κ} : {A : Type ℓ} {B : Type κ} → Result A → (A → Result B) → Result B
ok a >>= f = f a
err e >>= f = err e

-- `errors.Wrap(err, s)` on the error path of a call.
abbrev pub wrap_err {ℓ} : {A : Type ℓ} → String → Result A → Result A
wrap_err s (ok a) = ok a
wrap_err s (err e) = err (wrap s e)

abbrev pub ok_or {ℓ} : {A : Type ℓ} → Option A → GoError → Result A
ok_or (some a) e = ok a
ok_or none e = err e

-- A call that may also panic, or end the process by `Fatal`.
pub data Outcome {ℓ} (A : Type ℓ) : Type ℓ where
  returned : A → Outcome A
  panicked : GoError → Outcome A
  exited : String → Outcome A

pub >>=-eq-ok {ℓ κ} :
    {A : Type ℓ} {B : Type κ} (r : Result A) (next : A → Result B) {value : B}
    → (r >>= next) ≡ ok value
    → (a : A) × (r ≡ ok a) × (next a ≡ ok value)
>>=-eq-ok (err failure) next same = cc
>>=-eq-ok (ok a) next same = (a, refl, same)

pub wrap_err-eq-ok {ℓ} :
    {A : Type ℓ} (s : String) (m : Result A) {a : A} → wrap_err s m ≡ ok a → m ≡ ok a
wrap_err-eq-ok s (ok a) h = h
wrap_err-eq-ok s (err e) h = cc

pub ok_or-eq-ok {ℓ} :
    {A : Type ℓ} (o : Option A) (e : GoError) {a : A} → ok_or o e ≡ ok a → o ≡ some a
ok_or-eq-ok (some a) e h = cc
ok_or-eq-ok none e h = cc

pub Result-cases {ℓ} :
    {A : Type ℓ} (r : Result A) → ((a : A) × (r ≡ ok a)) ⊎ ((e : GoError) × (r ≡ err e))
Result-cases (ok a) = inl (a, refl)
Result-cases (err e) = inr (e, refl)
