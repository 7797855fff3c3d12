-- ===== src/Operator/Registration/Laws.antt =====
-- What registration has done when it succeeds, and which errors it lets pass.
use blockless_avs_tools.Base.{
  ℕ, ◌+◌, ◌^◌, ◌<◌, [], ◌∷◌, ok, returned, exited, ◌≡◌, arith, int64, pos, ◌⊎◌, inl, inr,
  Result-cases, int64-small,
}
use blockless_avs_tools.Base.Calls
use blockless_avs_tools.Operator.Registration.{
  RegistrationLib, done, registration_sig_salt, register_operator_with_eigenlayer,
  deposit_into_strategy, register_operator_with_avs, register_operator_on_startup,
}

module _ {W Opts Tx Erc20 Key Receipt : Type 0} (lib : RegistrationLib W Opts Tx Erc20 Key Receipt)
    (operator_addr : ℕ) where
  -- The signature that registers with the AVS is asked to hold until a million seconds after the
  -- current block, for quorum 0, if that time fits an int64.
  pub register_operator_with_avs-expiry :
      (key : Key) (number time : ℕ) (w w₁ w₂ : W)
      → lib.block_number w ≡ (ok number, w₁)
      → lib.block_by_number (int64 number) w₁ ≡ (ok time, w₂)
      → time + 1_000_000 < 2 ^ 63
      → register_operator_with_avs lib operator_addr key w
        ≡ done
            (lib.register_operator_in_quorum_with_avs_registry_coordinator key registration_sig_salt
              (pos (time + 1_000_000))
              (0 ∷ [])
              "Not Needed")
            w₂
  unfolding register_operator_with_avs
  register_operator_with_avs-expiry key number time w w₁ w₂ a b small =
      ground (arith, int64-small (time + 1_000_000) small)

  -- Startup returns only if the deposit and then the registration with the AVS succeeded, whether
  -- or not the registration with EigenLayer did; else the process exits, and after a failed deposit
  -- no registration with the AVS is tried.
  pub register_operator_on_startup_lem :
      (key : Key) (strategy : ℕ) (w : W)
      → let w₁ = (register_operator_with_eigenlayer lib operator_addr w).1 in
        let (deposited, w₂) = deposit_into_strategy lib operator_addr strategy 1000 w₁ in
        let (registered, w₃) = register_operator_with_avs lib operator_addr key w₂ in
        ((deposited ≡ ok tt)
          × (registered ≡ ok tt)
          × (register_operator_on_startup lib operator_addr key strategy w
              ≡ (returned (ok tt), w₃)))
        ⊎ ((deposited ≡ ok tt)
            × (register_operator_on_startup lib operator_addr key strategy w
                ≡ (exited "Error registering operator with avs", w₃)))
        ⊎ (register_operator_on_startup lib operator_addr key strategy w
            ≡ (exited "Error depositing into strategy", w₂))
  unfolding register_operator_on_startup Calls.◌>>=◌
  register_operator_on_startup_lem key strategy w =
      let w₁ = (register_operator_with_eigenlayer lib operator_addr w).1 in
      let d = deposit_into_strategy lib operator_addr strategy 1000 w₁ in
      elim (Result-cases d.0) [
        | inl (_, p) ↦
            elim (Result-cases (register_operator_with_avs lib operator_addr key d.1).0) [
              | inl (_, q) ↦ inl (p, q, ground arith)
              | inr (_, q) ↦ inr (inl (p, ground arith))
            ]
        | inr (_, p) ↦ inr (inr (ground arith))
      ]
