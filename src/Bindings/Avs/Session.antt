-- ===== src/Bindings/Avs/Session.antt =====
-- The methods of a session of contracts/bindings/BlocklessAVS/binding.go, each the method of the contract with the
-- options of the session.
use blockless_avs_tools.Base.{ℕ, ℤ, String, List, Bool, Option}
use blockless_avs_tools.Base.Effects.{Effect}
use blockless_avs_tools.Base.Calls.{Call}
use blockless_avs_tools.Bindings.{
  Price, OracleRequest, Bn254G1Point, Bn254G2Point, NonSignerStakesAndSignature, QuorumStakeTotals,
  SignatureWithSaltAndExpiry,
}
use blockless_avs_tools.Bindings.Values.{Bind}
use blockless_avs_tools.Bindings.Handles.{Session, call_in_session, transact_in_session}
use blockless_avs_tools.Bindings.Avs.Reads
use blockless_avs_tools.Bindings.Avs.Writes

module _ {W Bound CallOpts TransactOpts Transaction : Type 0}
    (lib : Bind W Bound CallOpts TransactOpts Transaction) where
  unfoldable pub block_stale_measure : Session Bound CallOpts TransactOpts → Call W ℕ
  block_stale_measure = call_in_session (Reads.block_stale_measure lib)

  unfoldable pub aggregator : Session Bound CallOpts TransactOpts → Call W ℕ
  aggregator = call_in_session (Reads.aggregator lib)

  unfoldable pub avs_directory : Session Bound CallOpts TransactOpts → Call W ℕ
  avs_directory = call_in_session (Reads.avs_directory lib)

  unfoldable pub bls_apk_registry : Session Bound CallOpts TransactOpts → Call W ℕ
  bls_apk_registry = call_in_session (Reads.bls_apk_registry lib)

  unfoldable pub check_signatures :
      Session Bound CallOpts TransactOpts
      → List ℕ
      → List ℕ
      → ℕ
      → NonSignerStakesAndSignature
      → Call W (QuorumStakeTotals × List ℕ)
  check_signatures = call_in_session (Reads.check_signatures lib)

  unfoldable pub delegation : Session Bound CallOpts TransactOpts → Call W ℕ
  delegation = call_in_session (Reads.delegation lib)

  unfoldable pub get_operator_restaked_strategies :
      Session Bound CallOpts TransactOpts → ℕ → Call W (List ℕ)
  get_operator_restaked_strategies = call_in_session (Reads.get_operator_restaked_strategies lib)

  unfoldable pub get_restakeable_strategies : Session Bound CallOpts TransactOpts → Call W (List ℕ)
  get_restakeable_strategies = call_in_session (Reads.get_restakeable_strategies lib)

  unfoldable pub owner : Session Bound CallOpts TransactOpts → Call W ℕ
  owner = call_in_session (Reads.owner lib)

  unfoldable pub paused : Session Bound CallOpts TransactOpts → ℕ → Call W Bool
  paused = call_in_session (Reads.paused lib)

  unfoldable pub paused0 : Session Bound CallOpts TransactOpts → Call W (Option ℤ)
  paused0 = call_in_session (Reads.paused0 lib)

  unfoldable pub pauser_registry : Session Bound CallOpts TransactOpts → Call W ℕ
  pauser_registry = call_in_session (Reads.pauser_registry lib)

  unfoldable pub price : Session Bound CallOpts TransactOpts → String → Call W Price
  price = call_in_session (Reads.price lib)

  unfoldable pub prices : Session Bound CallOpts TransactOpts → String → Call W Price
  prices = call_in_session (Reads.prices lib)

  unfoldable pub registry_coordinator : Session Bound CallOpts TransactOpts → Call W ℕ
  registry_coordinator = call_in_session (Reads.registry_coordinator lib)

  unfoldable pub stake_registry : Session Bound CallOpts TransactOpts → Call W ℕ
  stake_registry = call_in_session (Reads.stake_registry lib)

  unfoldable pub stale_stakes_forbidden : Session Bound CallOpts TransactOpts → Call W Bool
  stale_stakes_forbidden = call_in_session (Reads.stale_stakes_forbidden lib)

  unfoldable pub try_signature_and_apk_verification :
      Session Bound CallOpts TransactOpts
      → List ℕ
      → Bn254G1Point
      → Bn254G2Point
      → Bn254G1Point
      → Call W (Bool × Bool)
  try_signature_and_apk_verification =
      call_in_session (Reads.try_signature_and_apk_verification lib)

  unfoldable pub deregister_operator_from_avs :
      Session Bound CallOpts TransactOpts → ℕ → Effect W Transaction
  deregister_operator_from_avs = transact_in_session (Writes.deregister_operator_from_avs lib)

  unfoldable pub freeze_operator : Session Bound CallOpts TransactOpts → ℕ → Effect W Transaction
  freeze_operator = transact_in_session (Writes.freeze_operator lib)

  unfoldable pub initialize : Session Bound CallOpts TransactOpts → ℕ → ℕ → ℕ → Effect W Transaction
  initialize = transact_in_session (Writes.initialize lib)

  unfoldable pub pause : Session Bound CallOpts TransactOpts → Option ℤ → Effect W Transaction
  pause = transact_in_session (Writes.pause lib)

  unfoldable pub pause_all : Session Bound CallOpts TransactOpts → Effect W Transaction
  pause_all = transact_in_session (Writes.pause_all lib)

  unfoldable pub register_operator_to_avs :
      Session Bound CallOpts TransactOpts → ℕ → SignatureWithSaltAndExpiry → Effect W Transaction
  register_operator_to_avs = transact_in_session (Writes.register_operator_to_avs lib)

  unfoldable pub renounce_ownership : Session Bound CallOpts TransactOpts → Effect W Transaction
  renounce_ownership = transact_in_session (Writes.renounce_ownership lib)

  unfoldable pub set_aggregator : Session Bound CallOpts TransactOpts → ℕ → Effect W Transaction
  set_aggregator = transact_in_session (Writes.set_aggregator lib)

  unfoldable pub set_pauser_registry :
      Session Bound CallOpts TransactOpts → ℕ → Effect W Transaction
  set_pauser_registry = transact_in_session (Writes.set_pauser_registry lib)

  unfoldable pub set_stale_stakes_forbidden :
      Session Bound CallOpts TransactOpts → Bool → Effect W Transaction
  set_stale_stakes_forbidden = transact_in_session (Writes.set_stale_stakes_forbidden lib)

  unfoldable pub transfer_ownership : Session Bound CallOpts TransactOpts → ℕ → Effect W Transaction
  transfer_ownership = transact_in_session (Writes.transfer_ownership lib)

  unfoldable pub unpause : Session Bound CallOpts TransactOpts → Option ℤ → Effect W Transaction
  unpause = transact_in_session (Writes.unpause lib)

  unfoldable pub update_avs_metadata_uri :
      Session Bound CallOpts TransactOpts → String → Effect W Transaction
  update_avs_metadata_uri = transact_in_session (Writes.update_avs_metadata_uri lib)

  unfoldable pub update_oracle_price :
      Session Bound CallOpts TransactOpts
      → OracleRequest
      → Price
      → NonSignerStakesAndSignature
      → Effect W Transaction
  update_oracle_price = transact_in_session (Writes.update_oracle_price lib)
