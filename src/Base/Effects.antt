-- ===== src/Base/Effects.antt =====
-- Calls that change a state and may fail with a Go `error`. What was written before the error
-- stays written.
use mathlib.Core.Option.{Option, none, some}
use mathlib.Core.Path.{◌≡◌}
use mathlib.Core.Logic.{inl, inr}
use native.Mathlib.Omega.{arith}
use blockless_avs_tools.Base.Results.{GoError, Result, ok, err, Result-cases}

abbrev pub Effect {ℓ κ} : Type ℓ → Type κ → Type (ℓ ⊔ κ)
Effect W A = W → Result A × W

abbrev pub from_error : Option GoError → Result (Unit {0})
from_error none = ok tt
from_error (some e) = err e

module _ {W : Type 0} where
  infixl 5 ◌>>=◌ ◌>>◌
  abbrev pub ◌>>=◌ : {A B : Type 0} → Effect W A → (A → Effect W B) → Effect W B
  ◌>>=◌ m f w = let (r, w') = m w in elim r [ ok a ↦ f a w' | err e ↦ (err e, w') ]

  abbrev pub ◌>>◌ : {B : Type 0} → Effect W (Unit {0}) → Effect W B → Effect W B
  m >> k = m >>= λ _. k

  abbrev pub lift : {A : Type 0} → Result A → Effect W A
  lift r w = (r, w)

  abbrev pub modify : (W → W) → Effect W (Unit {0})
  modify f w = (ok tt, f w)

  -- `if err := m(); err != nil { log }`: the error is dropped.
  abbrev pub ignore_error : {A : Type 0} → Effect W A → Effect W (Unit {0})
  ignore_error m w = (ok tt, (m w).1)

-- A chain that succeeded ran its first call to a value.
pub >>=-eq-ok :
    {W A B : Type 0} {b : B} {w' : W} (m : Effect W A) (f : A → Effect W B) (w : W)
    → (m >>= f) w ≡ (ok b, w')
    → (a : A) × (w₁ : W) × (m w ≡ (ok a, w₁)) × (f a w₁ ≡ (ok b, w'))
>>=-eq-ok m f w e = elim (Result-cases (m w).0) [
  | inl (a, p) ↦ (a, (m w).1, ground arith, ground arith)
  | inr (_, p) ↦ ground arith
]
