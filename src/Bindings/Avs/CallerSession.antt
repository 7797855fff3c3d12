-- ===== src/Bindings/Avs/CallerSession.antt =====
-- The methods of a session for calls alone of contracts/bindings/BlocklessAVS/binding.go, each the method of the contract with the
-- options of the session.
use blockless_avs_tools.Base.{ℕ, ℤ, String, List, Bool, Option}
use blockless_avs_tools.Base.Calls.{Call}
use blockless_avs_tools.Bindings.{
  Price, Bn254G1Point, Bn254G2Point, NonSignerStakesAndSignature, QuorumStakeTotals,
}
use blockless_avs_tools.Bindings.Values.{Bind}
use blockless_avs_tools.Bindings.Handles.{CallerSession, call_in_caller_session}
use blockless_avs_tools.Bindings.Avs.Reads

module _ {W Bound CallOpts TransactOpts Transaction : Type 0}
    (lib : Bind W Bound CallOpts TransactOpts Transaction) where
  unfoldable pub block_stale_measure : CallerSession Bound CallOpts → Call W ℕ
  block_stale_measure = call_in_caller_session (Reads.block_stale_measure lib)

  unfoldable pub aggregator : CallerSession Bound CallOpts → Call W ℕ
  aggregator = call_in_caller_session (Reads.aggregator lib)

  unfoldable pub avs_directory : CallerSession Bound CallOpts → Call W ℕ
  avs_directory = call_in_caller_session (Reads.avs_directory lib)

  unfoldable pub bls_apk_registry : CallerSession Bound CallOpts → Call W ℕ
  bls_apk_registry = call_in_caller_session (Reads.bls_apk_registry lib)

  unfoldable pub check_signatures :
      CallerSession Bound CallOpts
      → List ℕ
      → List ℕ
      → ℕ
      → NonSignerStakesAndSignature
      → Call W (QuorumStakeTotals × List ℕ)
  check_signatures = call_in_caller_session (Reads.check_signatures lib)

  unfoldable pub delegation : CallerSession Bound CallOpts → Call W ℕ
  delegation = call_in_caller_session (Reads.delegation lib)

  unfoldable pub get_operator_restaked_strategies :
      CallerSession Bound CallOpts → ℕ → Call W (List ℕ)
  get_operator_restaked_strategies =
      call_in_caller_session (Reads.get_operator_restaked_strategies lib)

  unfoldable pub get_restakeable_strategies : CallerSession Bound CallOpts → Call W (List ℕ)
  get_restakeable_strategies = call_in_caller_session (Reads.get_restakeable_strategies lib)

  unfoldable pub owner : CallerSession Bound CallOpts → Call W ℕ
  owner = call_in_caller_session (Reads.owner lib)

  unfoldable pub paused : CallerSession Bound CallOpts → ℕ → Call W Bool
  paused = call_in_caller_session (Reads.paused lib)

  unfoldable pub paused0 : CallerSession Bound CallOpts → Call W (Option ℤ)
  paused0 = call_in_caller_session (Reads.paused0 lib)

  unfoldable pub pauser_registry : CallerSession Bound CallOpts → Call W ℕ
  pauser_registry = call_in_caller_session (Reads.pauser_registry lib)

  unfoldable pub price : CallerSession Bound CallOpts → String → Call W Price
  price = call_in_caller_session (Reads.price lib)

  unfoldable pub prices : CallerSession Bound CallOpts → String → Call W Price
  prices = call_in_caller_session (Reads.prices lib)

  unfoldable pub registry_coordinator : CallerSession Bound CallOpts → Call W ℕ
  registry_coordinator = call_in_caller_session (Reads.registry_coordinator lib)

  unfoldable pub stake_registry : CallerSession Bound CallOpts → Call W ℕ
  stake_registry = call_in_caller_session (Reads.stake_registry lib)

  unfoldable pub stale_stakes_forbidden : CallerSession Bound CallOpts → Call W Bool
  stale_stakes_forbidden = call_in_caller_session (Reads.stale_stakes_forbidden lib)

  unfoldable pub try_signature_and_apk_verification :
      CallerSession Bound CallOpts
      → List ℕ
      → Bn254G1Point
      → Bn254G2Point
      → Bn254G1Point
      → Call W (Bool × Bool)
  try_signature_and_apk_verification =
      call_in_caller_session (Reads.try_signature_and_apk_verification lib)
