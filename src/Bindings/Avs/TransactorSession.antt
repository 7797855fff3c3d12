-- ===== src/Bindings/Avs/TransactorSession.antt =====
-- The methods of a session for transactions alone of contracts/bindings/BlocklessAVS/binding.go, each the method of the contract with the
-- options of the session.
use blockless_avs_tools.Base.{ℕ, ℤ, String, Bool, Option}
use blockless_avs_tools.Base.Effects.{Effect}
use blockless_avs_tools.Bindings.{
  Price, OracleRequest, NonSignerStakesAndSignature, SignatureWithSaltAndExpiry,
}
use blockless_avs_tools.Bindings.Values.{Bind}
use blockless_avs_tools.Bindings.Handles.{TransactorSession, transact_in_transactor_session}
use blockless_avs_tools.Bindings.Avs.Writes

module _ {W Bound CallOpts TransactOpts Transaction : Type 0}
    (lib : Bind W Bound CallOpts TransactOpts Transaction) where
  unfoldable pub deregister_operator_from_avs :
      TransactorSession Bound TransactOpts → ℕ → Effect W Transaction
  deregister_operator_from_avs =
      transact_in_transactor_session (Writes.deregister_operator_from_avs lib)

  unfoldable pub freeze_operator : TransactorSession Bound TransactOpts → ℕ → Effect W Transaction
  freeze_operator = transact_in_transactor_session (Writes.freeze_operator lib)

  unfoldable pub initialize :
      TransactorSession Bound TransactOpts → ℕ → ℕ → ℕ → Effect W Transaction
  initialize = transact_in_transactor_session (Writes.initialize lib)

  unfoldable pub pause : TransactorSession Bound TransactOpts → Option ℤ → Effect W Transaction
  pause = transact_in_transactor_session (Writes.pause lib)

  unfoldable pub pause_all : TransactorSession Bound TransactOpts → Effect W Transaction
  pause_all = transact_in_transactor_session (Writes.pause_all lib)

  unfoldable pub register_operator_to_avs :
      TransactorSession Bound TransactOpts → ℕ → SignatureWithSaltAndExpiry → Effect W Transaction
  register_operator_to_avs = transact_in_transactor_session (Writes.register_operator_to_avs lib)

  unfoldable pub renounce_ownership : TransactorSession Bound TransactOpts → Effect W Transaction
  renounce_ownership = transact_in_transactor_session (Writes.renounce_ownership lib)

  unfoldable pub set_aggregator : TransactorSession Bound TransactOpts → ℕ → Effect W Transaction
  set_aggregator = transact_in_transactor_session (Writes.set_aggregator lib)

  unfoldable pub set_pauser_registry :
      TransactorSession Bound TransactOpts → ℕ → Effect W Transaction
  set_pauser_registry = transact_in_transactor_session (Writes.set_pauser_registry lib)

  unfoldable pub set_stale_stakes_forbidden :
      TransactorSession Bound TransactOpts → Bool → Effect W Transaction
  set_stale_stakes_forbidden =
      transact_in_transactor_session (Writes.set_stale_stakes_forbidden lib)

  unfoldable pub transfer_ownership :
      TransactorSession Bound TransactOpts → ℕ → Effect W Transaction
  transfer_ownership = transact_in_transactor_session (Writes.transfer_ownership lib)

  unfoldable pub unpause : TransactorSession Bound TransactOpts → Option ℤ → Effect W Transaction
  unpause = transact_in_transactor_session (Writes.unpause lib)

  unfoldable pub update_avs_metadata_uri :
      TransactorSession Bound TransactOpts → String → Effect W Transaction
  update_avs_metadata_uri = transact_in_transactor_session (Writes.update_avs_metadata_uri lib)

  unfoldable pub update_oracle_price :
      TransactorSession Bound TransactOpts
      → OracleRequest
      → Price
      → NonSignerStakesAndSignature
      → Effect W Transaction
  update_oracle_price = transact_in_transactor_session (Writes.update_oracle_price lib)
