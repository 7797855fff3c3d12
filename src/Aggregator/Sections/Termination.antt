-- ===== src/Aggregator/Sections/Termination.antt =====
-- Every call of the endpoint ends, whatever the others do.
use blockless_avs_tools.Base.{
  sum_by, sum_by-set, ℕ, zero, suc, ◌+◌, ◌*◌, ◌≤◌, ◌≡◌, refl, List, [], ◌∷◌, Result, Result-cases,
  some, ◌⊎◌, get_elem?, set, arith, inl, inr, All,
}
use blockless_avs_tools.Core.Digest.{AbiLib, get_price_digest}
use blockless_avs_tools.Aggregator.State.{BlsService, Aggregator}
use blockless_avs_tools.Aggregator.Rpc.{or_digest_error, initialize_new_task}
use blockless_avs_tools.Aggregator.Sections.{
  Phase, received, digested, pricing, initializing, storing, signing, finished, advance, System,
  Step, arrive, move, background,
}

-- The moves that a call has left at most.
abbrev pub remaining : {Sig : Type 0} → Phase Sig → ℕ
remaining (received _) = 6
remaining (digested _ _) = 5
remaining (pricing _ _ _) = 4
remaining (initializing _ _ _) = 3
remaining (storing _ _ _) = 2
remaining (signing _ _) = 1
remaining (finished _) = 0

-- A finished call does not move on.
abbrev pub cost : {Sig : Type 0} → Phase Sig → ℕ
cost (finished _) = 0
cost _ = 1

abbrev pub total : {Sig : Type 0} → List (Phase Sig) → ℕ
total = sum_by remaining

module _ {T Sig S : Type 0} (lib : AbiLib T) (service : BlsService Sig S) where
  -- A move of a call that has not finished leaves it fewer moves, any other no more.
  cost-advance :
      (block_number : Result ℕ) (p : Phase Sig) (agg : Aggregator S)
      → remaining (advance lib service block_number p agg).0 + cost p ≤ remaining p
  unfolding advance
  cost-advance block_number (received resp) agg =
      elim (Result-cases (or_digest_error (get_price_digest lib resp.price_response))) [
        | inl (_, good) ↦ rw good (omega arith)
        | inr (_, bad) ↦ rw bad (omega arith)
      ]
  cost-advance block_number (digested resp digest) agg = elim (Result-cases block_number) [
    | inl (_, good) ↦ rw good (omega arith)
    | inr (_, bad) ↦ rw bad (omega arith)
  ]
  cost-advance block_number (pricing resp digest block) agg = omega arith
  cost-advance block_number (initializing resp digest block) agg =
      elim (Result-cases (initialize_new_task lib service block agg).0) [
        | inl (_, good) ↦ rw good (omega arith)
        | inr (_, bad) ↦ rw bad (omega arith)
      ]
  cost-advance block_number (storing resp digest req) agg = omega arith
  cost-advance block_number (signing resp digest) agg = omega arith
  cost-advance block_number (finished r) agg = omega arith

  remaining-cases : (p : Phase Sig) → (remaining p ≡ 0) ⊎ (cost p ≡ 1)
  remaining-cases p = ground arith

  -- Any steps one after the other.
  pub data Steps : System lib service → System lib service → Type 0 where
    rest : (s : System lib service) → Steps s s
    more : {s t u : System lib service} → Steps s t → Step lib service t u → Steps s u

  -- The calls that arrive, and the moves of calls that have not finished yet.
  abbrev pub arrivals : {s t : System lib service} → Steps s t → ℕ
  arrivals (rest s) = 0
  arrivals (more steps (arrive s resp)) = arrivals steps + 1
  arrivals (more steps (move s i p block_number h)) = arrivals steps
  arrivals (more steps (background s state)) = arrivals steps

  abbrev pub moves : {s t : System lib service} → Steps s t → ℕ
  moves (rest s) = 0
  moves (more steps (arrive s resp)) = moves steps
  moves (more steps (move s i p block_number h)) = moves steps + cost p
  moves (more steps (background s state)) = moves steps

  move-total :
      (s : System lib service) (i : ℕ) (p : Phase Sig) (block_number : Result ℕ)
      → get_elem? s.calls i ≡ some p
      → total (set s.calls i (advance lib service block_number p s.agg).0) + cost p ≤ total s.calls
  move-total s i p block_number h =
      let same = sum_by-set remaining s.calls i (advance lib service block_number p s.agg).0 h in
      let fewer = cost-advance block_number p s.agg in omega (arith, same, fewer)

  -- Whatever the interleaving, the calls make no more moves than six for each that arrives and what
  -- those in flight had left.
  pub moves-le :
      {s t : System lib service} (steps : Steps s t)
      → moves steps + total t.calls ≤ total s.calls + 6 * arrivals steps
  moves-le (rest s) = omega arith
  moves-le (more steps (arrive s resp)) = omega (arith, moves-le steps)
  moves-le (more steps (move s i p block_number h)) =
      omega (arith, moves-le steps, move-total s i p block_number h)
  moves-le (more steps (background s state)) = moves-le steps

  abbrev pub IsFinished : Phase Sig → Type 0
  IsFinished p = remaining p ≡ 0

  -- A call that has not finished, or all have.
  total-cases :
      (calls : List (Phase Sig))
      → All IsFinished calls
        ⊎ ((i : ℕ) × (p : Phase Sig) × (get_elem? calls i ≡ some p) × (cost p ≡ 1))
  total-cases [] = inl tt
  total-cases (p ∷ calls) = elim (remaining-cases p) [
    | inr left ↦ inr (zero, p, refl, left)
    | inl ended ↦ elim (total-cases calls) [
      | inl all ↦ inl (ended, all)
      | inr (i, q, found, left) ↦ inr (suc i, q, found, left)
    ]
  ]

  finish_from :
      (bound : ℕ) (block_number : Result ℕ) {s : System lib service} (t : System lib service)
      (steps : Steps s t)
      → arrivals steps ≡ 0
      → total t.calls ≤ bound
      → (u : System lib service) × (to_end : Steps s u) × (arrivals to_end ≡ 0)
        × All IsFinished u.calls
  finish_from zero block_number t steps none_new enough = elim (total-cases t.calls) [
    | inl all ↦ (t, steps, none_new, all)
    | inr (i, p, found, left) ↦ absurd (omega (arith, move-total t i p block_number found, left))
  ]
  finish_from (suc bound) block_number t steps none_new enough = elim (total-cases t.calls) [
    | inl all ↦ (t, steps, none_new, all)
    | inr (i, p, found, left) ↦
        let less = move-total t i p block_number found in
        finish_from bound block_number _ (more steps (move t i p block_number found)) none_new
          (omega (arith, less, left))
  ]

  -- From any state, with no call arriving and whatever block numbers are read, the calls in flight
  -- can all be brought to their end, in at most the moves that they have left.
  pub can_finish :
      (block_number : Result ℕ) (s : System lib service)
      → (t : System lib service) × (steps : Steps s t) × (arrivals steps ≡ 0)
        × (moves steps ≤ total s.calls)
        × All IsFinished t.calls
  can_finish block_number s =
      let (t, steps, none_new, all) =
        finish_from (total s.calls) block_number s (rest s) refl (omega arith) in
      (t, steps, none_new, omega (arith, moves-le steps, none_new), all)
