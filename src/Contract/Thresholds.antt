-- ===== src/Contract/Thresholds.antt =====
-- The loop of `updateOraclePrice` over the quorums of a request.
use blockless_avs_tools.Base.{
  ℕ, zero, suc, ◌+◌, ◌*◌, ◌^◌, ◌≤◌, ◌<◌, ◌≡◌, refl, ◌↔◌, inl, inr, some, arith, Option-cases,
  get_elem?, u8, string_eq, subst,
}
use blockless_avs_tools.Bindings.{QuorumStakeTotals}
use blockless_avs_tools.Contract.{done, check_thresholds}

-- The signed stake of a quorum reaches the percentage of its total stake.
abbrev pub MeetsThreshold : ℕ → QuorumStakeTotals → ℕ → Type 0
MeetsThreshold percentage totals i =
    (signed : ℕ) × (total : ℕ) × (get_elem? totals.signed_stake_for_quorum i ≡ some signed)
    × (get_elem? totals.total_stake_for_quorum i ≡ some total)
    × (total * u8 percentage ≤ signed * 100)
    × (total * u8 percentage < 2 ^ 96)

-- One round of the loop, there and back.
first_round :
    (rest i percentage : ℕ) (totals : QuorumStakeTotals)
    → check_thresholds (suc rest) i percentage totals ≡ done tt
    → MeetsThreshold percentage totals i
      × (check_thresholds rest (i + 1) percentage totals ≡ done tt)
unfolding check_thresholds
first_round rest i q totals h = elim (Option-cases (get_elem? totals.signed_stake_for_quorum i)) [
  | inl e ↦ ground arith
  | inr (signed, e) ↦ elim (Option-cases (get_elem? totals.total_stake_for_quorum i)) [
    | inl f ↦ ground arith
    | inr (total, f) ↦ ((signed, total, e, f, ground arith, ground arith), ground arith)
  ]
]

add_round :
    (rest i percentage : ℕ) (totals : QuorumStakeTotals)
    → MeetsThreshold percentage totals i
    → check_thresholds rest (i + 1) percentage totals ≡ done tt
    → check_thresholds (suc rest) i percentage totals ≡ done tt
unfolding check_thresholds
add_round rest i q totals (signed, total, e, f, enough, small) h = ground arith

move_index :
    (percentage : ℕ) (totals : QuorumStakeTotals) {i j : ℕ}
    → i ≡ j
    → MeetsThreshold percentage totals i
    → MeetsThreshold percentage totals j
move_index q totals e m = subst (MeetsThreshold q totals) e m

-- The loop over `rest` quorums from `i` on passes only if each of them meets the threshold.
check_thresholds-MeetsThreshold :
    (rest i percentage : ℕ) (totals : QuorumStakeTotals)
    → check_thresholds rest i percentage totals ≡ done tt
    → (j : ℕ) → j < rest
    → MeetsThreshold percentage totals (i + j)
check_thresholds-MeetsThreshold zero i q totals h j lt = absurd (omega arith)
check_thresholds-MeetsThreshold (suc rest) i q totals h zero lt =
    move_index q totals (omega arith) (first_round rest i q totals h).0
check_thresholds-MeetsThreshold (suc rest) i q totals h (suc j) lt =
    move_index q totals (omega arith) (
      check_thresholds-MeetsThreshold rest (i + 1) q totals (first_round rest i q totals h).1 j
        (omega arith))

MeetsThreshold-check_thresholds :
    (rest i percentage : ℕ) (totals : QuorumStakeTotals)
    → ((j : ℕ) → j < rest → MeetsThreshold percentage totals (i + j))
    → check_thresholds rest i percentage totals ≡ done tt
unfolding check_thresholds
MeetsThreshold-check_thresholds zero i q totals h = refl
MeetsThreshold-check_thresholds (suc rest) i q totals h =
    add_round rest i q totals (move_index q totals (omega arith) (h 0 (omega arith))) (
      MeetsThreshold-check_thresholds rest (i + 1) q totals
        (λ j lt. move_index q totals (omega arith) (h (suc j) (omega arith))))

-- The loop passes exactly when every quorum of the request has a signed stake of at least the
-- request's percentage of its total stake, with no overflow of the product.
pub check_thresholds_iff :
    (n percentage : ℕ) (totals : QuorumStakeTotals)
    → (check_thresholds n 0 percentage totals ≡ done tt)
      ↔ ((j : ℕ) → j < n → MeetsThreshold percentage totals j)
check_thresholds_iff n q totals = (
  λ h j lt. move_index q totals (omega arith) (check_thresholds-MeetsThreshold n 0 q totals h j lt),
  λ h.
      MeetsThreshold-check_thresholds n 0 q totals
        (λ j lt. move_index q totals (omega arith) (h j lt)),
)
