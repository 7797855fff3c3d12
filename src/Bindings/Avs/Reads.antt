-- ===== src/Bindings/Avs/Reads.antt =====
-- The callers of contracts/bindings/BlocklessAVS/binding.go: one call of a view function each.
use blockless_avs_tools.Base.{ℕ, ℤ, String, List, [], ◌∷◌, Bool, Option}
use blockless_avs_tools.Base.Calls.{Call, ◌>>=◌, run, or_panic, pure}
use blockless_avs_tools.Bindings.{
  Price, Bn254G1Point, Bn254G2Point, NonSignerStakesAndSignature, QuorumStakeTotals,
}
use blockless_avs_tools.Bindings.Values.{
  address, bytes, bytes32, text, uint8, uint32, g1_struct, g2_struct, stakes_struct, Bind, call_one,
  out_at,
}
use blockless_avs_tools.Bindings.Handles.{Caller}

module _ {W Bound CallOpts TransactOpts Transaction : Type 0}
    (lib : Bind W Bound CallOpts TransactOpts Transaction) where
  unfoldable pub block_stale_measure : Caller Bound → CallOpts → Call W ℕ
  unfolding ◌>>=◌
  block_stale_measure c opts =
      call_one lib (c.contract) opts "BLOCK_STALE_MEASURE" [] (lib.convert_type.to_uint32)

  unfoldable pub aggregator : Caller Bound → CallOpts → Call W ℕ
  unfolding ◌>>=◌
  aggregator c opts = call_one lib (c.contract) opts "aggregator" [] (lib.convert_type.to_address)

  unfoldable pub avs_directory : Caller Bound → CallOpts → Call W ℕ
  unfolding ◌>>=◌
  avs_directory c opts =
      call_one lib (c.contract) opts "avsDirectory" [] (lib.convert_type.to_address)

  unfoldable pub bls_apk_registry : Caller Bound → CallOpts → Call W ℕ
  unfolding ◌>>=◌
  bls_apk_registry c opts =
      call_one lib (c.contract) opts "blsApkRegistry" [] (lib.convert_type.to_address)

  unfoldable pub check_signatures :
      Caller Bound
      → CallOpts
      → List ℕ
      → List ℕ
      → ℕ
      → NonSignerStakesAndSignature
      → Call W (QuorumStakeTotals × List ℕ)
  unfolding ◌>>=◌
  check_signatures c opts msg_hash quorum_numbers reference_block_number params = do
    out ← run (
        lib.call (c.contract) opts "checkSignatures" (
          bytes32 msg_hash
          ∷ bytes quorum_numbers
          ∷ uint32 reference_block_number
          ∷ stakes_struct params
          ∷ []))
    out0 ← or_panic (out_at (lib.convert_type.to_stake_totals) out 0)
    out1 ← or_panic (out_at (lib.convert_type.to_bytes32) out 1)
    pure (out0, out1)

  unfoldable pub delegation : Caller Bound → CallOpts → Call W ℕ
  unfolding ◌>>=◌
  delegation c opts = call_one lib (c.contract) opts "delegation" [] (lib.convert_type.to_address)

  unfoldable pub get_operator_restaked_strategies : Caller Bound → CallOpts → ℕ → Call W (List ℕ)
  unfolding ◌>>=◌
  get_operator_restaked_strategies c opts operator =
      call_one lib (c.contract) opts "getOperatorRestakedStrategies" (address operator ∷ [])
        (lib.convert_type.to_addresses)

  unfoldable pub get_restakeable_strategies : Caller Bound → CallOpts → Call W (List ℕ)
  unfolding ◌>>=◌
  get_restakeable_strategies c opts =
      call_one lib (c.contract) opts "getRestakeableStrategies" [] (lib.convert_type.to_addresses)

  unfoldable pub owner : Caller Bound → CallOpts → Call W ℕ
  unfolding ◌>>=◌
  owner c opts = call_one lib (c.contract) opts "owner" [] (lib.convert_type.to_address)

  unfoldable pub paused : Caller Bound → CallOpts → ℕ → Call W Bool
  unfolding ◌>>=◌
  paused c opts index =
      call_one lib (c.contract) opts "paused" (uint8 index ∷ []) (lib.convert_type.to_boolean)

  unfoldable pub paused0 : Caller Bound → CallOpts → Call W (Option ℤ)
  unfolding ◌>>=◌
  paused0 c opts = call_one lib (c.contract) opts "paused0" [] (lib.convert_type.to_big_int)

  unfoldable pub pauser_registry : Caller Bound → CallOpts → Call W ℕ
  unfolding ◌>>=◌
  pauser_registry c opts =
      call_one lib (c.contract) opts "pauserRegistry" [] (lib.convert_type.to_address)

  unfoldable pub price : Caller Bound → CallOpts → String → Call W Price
  unfolding ◌>>=◌
  price c opts symbol =
      call_one lib (c.contract) opts "price" (text symbol ∷ []) (lib.convert_type.to_price)

  unfoldable pub prices : Caller Bound → CallOpts → String → Call W Price
  unfolding ◌>>=◌
  prices c opts arg0 = do
    out ← run (lib.call (c.contract) opts "prices" (text arg0 ∷ []))
    out0 ← or_panic (out_at (lib.convert_type.to_text) out 0)
    out1 ← or_panic (out_at (lib.convert_type.to_big_int) out 1)
    out2 ← or_panic (out_at (lib.convert_type.to_uint32) out 2)
    pure (record { symbol = out0; price = out1; timestamp = out2 })

  unfoldable pub registry_coordinator : Caller Bound → CallOpts → Call W ℕ
  unfolding ◌>>=◌
  registry_coordinator c opts =
      call_one lib (c.contract) opts "registryCoordinator" [] (lib.convert_type.to_address)

  unfoldable pub stake_registry : Caller Bound → CallOpts → Call W ℕ
  unfolding ◌>>=◌
  stake_registry c opts =
      call_one lib (c.contract) opts "stakeRegistry" [] (lib.convert_type.to_address)

  unfoldable pub stale_stakes_forbidden : Caller Bound → CallOpts → Call W Bool
  unfolding ◌>>=◌
  stale_stakes_forbidden c opts =
      call_one lib (c.contract) opts "staleStakesForbidden" [] (lib.convert_type.to_boolean)

  unfoldable pub try_signature_and_apk_verification :
      Caller Bound
      → CallOpts
      → List ℕ
      → Bn254G1Point
      → Bn254G2Point
      → Bn254G1Point
      → Call W (Bool × Bool)
  unfolding ◌>>=◌
  try_signature_and_apk_verification c opts msg_hash apk apk_g2 sigma = do
    out ← run (
        lib.call (c.contract) opts "trySignatureAndApkVerification"
          (bytes32 msg_hash ∷ g1_struct apk ∷ g2_struct apk_g2 ∷ g1_struct sigma ∷ []))
    out0 ← or_panic (out_at (lib.convert_type.to_boolean) out 0)
    out1 ← or_panic (out_at (lib.convert_type.to_boolean) out 1)
    pure (out0, out1)
