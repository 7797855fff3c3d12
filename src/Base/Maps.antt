-- ===== src/Base/Maps.antt =====
-- Go maps as association lists. A read of a missing key gives `none`; the callers that read with
-- one result supply the zero value.
use mathlib.Core.Path.{◌≡◌, refl, subst, ap₂}
use mathlib.Core.Logic.{inl, inr}
use mathlib.Core.Bool.{Bool, true, false}
use mathlib.Core.Option.{Option, none, some, some_inj}
use mathlib.Core.List.{List, [], ◌∷◌}
use native.Mathlib.Omega.{arith}
use blockless_avs_tools.Base.Tests.{Bool-cases, Eq, ◌==◌, ==_refl, if◌then◌else◌}
use blockless_avs_tools.Base.Lists.{All}

abbrev pub Dict {ℓ κ} : Type ℓ → Type κ → Type (ℓ ⊔ κ)
Dict K V = List (K × V)

module _ {ℓ κ} {K : Type ℓ} {V : Type κ} ⦃e : Eq K⦄ where
  abbrev pub lookup : K → List (K × V) → Option V
  lookup k [] = none
  lookup k ((j, v) ∷ m) = if j == k then some v else lookup k m

  abbrev pub contains : K → List (K × V) → Bool
  contains k m = elim (lookup k m) [ none ↦ false | some _ ↦ true ]

  -- `m[k]` with one result.
  abbrev pub lookup_or : K → List (K × V) → V → V
  lookup_or k m zero_value = elim (lookup k m) [ none ↦ zero_value | some v ↦ v ]

  -- `m[key] = value`
  abbrev pub insert : K → V → List (K × V) → List (K × V)
  insert key value [] = (key, value) ∷ []
  insert key value ((other, old) ∷ entries) =
      if other == key then (key, value) ∷ entries else (other, old) ∷ insert key value entries

  pub lookup-insert :
      (key asked : K) (value : V) (entries : List (K × V))
      → lookup asked (insert key value entries)
        ≡ (if key == asked then some value else lookup asked entries)
  lookup-insert key asked value ((other, old) ∷ rest) = ground (
    arith,
    e.beq_iff key asked,
    e.beq_iff other key,
    e.beq_iff other asked,
    lookup-insert key asked value rest,
  )
  lookup-insert key asked value [] = refl

  pub lookup-insert_self : (k : K) (v : V) (m : List (K × V)) → lookup k (insert k v m) ≡ some v
  lookup-insert_self k v m = simp (lookup-insert, ==_refl)

-- Predicates on all the entries of a map.
module _ {ℓ κ ι} {K : Type ℓ} {V : Type κ} ⦃e : Eq K⦄ (P : K × V → Type ι) where
  pub All-insert : (k : K) (v : V) (m : List (K × V)) → All P m → P (k, v) → All P (insert k v m)
  All-insert k v [] h p = (p, tt)
  All-insert k v ((j, w) ∷ m) h p = elim (Bool-cases (j == k)) [
    | inl same ↦ rw same (p, h.1)
    | inr other ↦ rw other (h.0, All-insert k v m h.1 p)
  ]

  pub All-lookup : (k : K) {v : V} (m : List (K × V)) → All P m → lookup k m ≡ some v → P (k, v)
  All-lookup k [] h f = cc
  All-lookup k {v} ((j, w) ∷ m) h f = elim (Bool-cases (j == k)) [
    | inl same ↦
        subst P (ap₂ (λ a b. (a, b)) ((e.beq_iff j k).0 same) (some_inj.0 (rw same at f))) h.0
    | inr other ↦ All-lookup k m h.1 (rw other at f)
  ]

  -- A read with a default that fits the predicate.
  pub All-lookup_or :
      (k : K) (m : List (K × V)) (z : V) → All P m → P (k, z) → P (k, lookup_or k m z)
  All-lookup_or k [] z h p = p
  All-lookup_or k ((j, w) ∷ m) z h p = elim (Bool-cases (j == k)) [
    | inl same ↦ rw (lookup_or, same) (subst (λ a. P (a, w)) ((e.beq_iff j k).0 same) h.0)
    | inr other ↦ rw (lookup_or, other) (All-lookup_or k m z h.1 p)
  ]
