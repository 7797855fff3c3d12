-- ===== src/Base/Calls.antt =====
-- Calls that may return a Go `error`, panic, or exit the process by `Fatal`, on a state.
use Prim.Native.String.{String}
use mathlib.Core.Bool.{Bool, true, false}
use mathlib.Core.Path.{◌≡◌, refl}
use mathlib.Core.Logic.{◌⊎◌, inl, inr}
use native.Mathlib.Omega.{arith}
use blockless_avs_tools.Base.Results.{GoError, Result, ok, err, Outcome, returned, panicked, exited}
use blockless_avs_tools.Base.Effects.{Effect}

abbrev pub Call : Type 0 → Type 0 → Type 0
Call W A = W → Outcome (Result A) × W

abbrev pub or_panic_with : {A : Type 0} → Result A → Outcome (Result A)
or_panic_with (ok a) = returned (ok a)
or_panic_with (err e) = panicked e

abbrev pub or_exit_with : {A : Type 0} → Result A → String → Outcome (Result A)
or_exit_with (ok a) s = returned (ok a)
or_exit_with (err e) s = exited s

module _ {W : Type 0} where
  infixl 5 ◌>>=◌ ◌>>◌
  unfoldable pub ◌>>=◌ : {A B : Type 0} → Call W A → (A → Call W B) → Call W B
  ◌>>=◌ m f w =
      let (o, w') = m w in
      elim o [
        | returned r ↦ elim r [ ok a ↦ f a w' | err e ↦ (returned (err e), w') ]
        | panicked e ↦ (panicked e, w')
        | exited s ↦ (exited s, w')
      ]

  abbrev pub ◌>>◌ : {B : Type 0} → Call W (Unit {0}) → Call W B → Call W B
  m >> k = m >>= λ _. k

  abbrev pub pure : {A : Type 0} → A → Call W A
  pure a w = (returned (ok a), w)

  -- A call whose error is returned.
  abbrev pub run : {A : Type 0} → Effect W A → Call W A
  run m w = let (r, w') = m w in (returned r, w')

  -- A call that changes nothing and whose error is returned.
  abbrev pub check : {A : Type 0} → Result A → Call W A
  check r w = (returned r, w)

  -- `if err != nil { panic(err) }`
  abbrev pub or_panic : {A : Type 0} → Result A → Call W A
  or_panic r w = (or_panic_with r, w)

  -- `if c { panic(…) }`
  abbrev pub panic_if : Bool → GoError → Call W (Unit {0})
  panic_if true e w = (panicked e, w)
  panic_if false e w = (returned (ok tt), w)

  -- `if err != nil { logger.Fatal(…) }`
  abbrev pub or_exit : {A : Type 0} → Effect W A → String → Call W A
  or_exit m s w = let (r, w') = m w in (or_exit_with r s, w')

  -- `if err != nil { logger.Error(…) }`
  abbrev pub or_log : {A : Type 0} → Effect W A → Call W (Unit {0})
  or_log m w = (returned (ok tt), (m w).1)

-- A call returned a value, or the chain that starts with it returned none.
pub Outcome-cases :
    {A : Type 0} (o : Outcome (Result A))
    → ((a : A) × (o ≡ returned (ok a)))
      ⊎ ((e : GoError) × (o ≡ returned (err e)))
      ⊎ ((e : GoError) × (o ≡ panicked e))
      ⊎ ((s : String) × (o ≡ exited s))
Outcome-cases (returned (ok a)) = inl (a, refl)
Outcome-cases (returned (err e)) = inr (inl (e, refl))
Outcome-cases (panicked e) = inr (inr (inl (e, refl)))
Outcome-cases (exited s) = inr (inr (inr (s, refl)))

-- A chain that returned a value ran its first call to a value.
pub >>=-eq-returned :
    {W A B : Type 0} {b : B} {w' : W} (m : Call W A) (f : A → Call W B) (w : W)
    → (m >>= f) w ≡ (returned (ok b), w')
    → (a : A) × (w₁ : W) × (m w ≡ (returned (ok a), w₁)) × (f a w₁ ≡ (returned (ok b), w'))
unfolding ◌>>=◌
>>=-eq-returned m f w e = elim (Outcome-cases (m w).0) [
  | inl (a, p) ↦ (a, (m w).1, ground arith, ground arith)
  | inr (inl (_, p)) ↦ ground arith
  | inr (inr (inl (_, p))) ↦ ground arith
  | inr (inr (inr (_, p))) ↦ ground arith
]

-- `if err != nil { panic(err) }` after a call that reads or changes the state.
abbrev pub or_panic_run : {W A : Type 0} → Effect W A → Call W A
or_panic_run m w = let (r, w') = m w in (or_panic_with r, w')

-- What every value that a call returns has, with the state that it leaves.
abbrev pub Ensures {ℓ} : {W B : Type 0} → (B → W → Type ℓ) → Call W B → Type ℓ
Ensures {W} {B} P m = (w w' : W) (b : B) → m w ≡ (returned (ok b), w') → P b w'

-- The tail of a chain of calls fixes what the chain returns.
pub then {ℓ} :
    {W A B : Type 0} {P : B → W → Type ℓ} (m : Call W A) (f : A → Call W B)
    → ((a : A) → Ensures P (f a))
    → Ensures P (m >>= f)
then m f tail w w' b e = let (a, w₁, _, q) = >>=-eq-returned m f w e in tail a w₁ w' b q
