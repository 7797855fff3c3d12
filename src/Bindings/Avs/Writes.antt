-- ===== src/Bindings/Avs/Writes.antt =====
-- The transactors of contracts/bindings/BlocklessAVS/binding.go: one transaction each.
use blockless_avs_tools.Base.{ℕ, ℤ, String, [], ◌∷◌, Bool, Option}
use blockless_avs_tools.Base.Effects.{Effect}
use blockless_avs_tools.Bindings.{
  Price, OracleRequest, NonSignerStakesAndSignature, SignatureWithSaltAndExpiry,
}
use blockless_avs_tools.Bindings.Values.{
  address, big_int, boolean, text, price_struct, request_struct, stakes_struct, signature_struct,
  Bind,
}
use blockless_avs_tools.Bindings.Handles.{Transactor}

module _ {W Bound CallOpts TransactOpts Transaction : Type 0}
    (lib : Bind W Bound CallOpts TransactOpts Transaction) where
  unfoldable pub deregister_operator_from_avs :
      Transactor Bound → TransactOpts → ℕ → Effect W Transaction
  deregister_operator_from_avs t opts operator =
      lib.transact (t.contract) opts "deregisterOperatorFromAVS" (address operator ∷ [])

  unfoldable pub freeze_operator : Transactor Bound → TransactOpts → ℕ → Effect W Transaction
  freeze_operator t opts operator_addr =
      lib.transact (t.contract) opts "freezeOperator" (address operator_addr ∷ [])

  unfoldable pub initialize : Transactor Bound → TransactOpts → ℕ → ℕ → ℕ → Effect W Transaction
  initialize t opts pauser_registry initial_owner aggregator =
      lib.transact (t.contract) opts "initialize"
        (address pauser_registry ∷ address initial_owner ∷ address aggregator ∷ [])

  unfoldable pub pause : Transactor Bound → TransactOpts → Option ℤ → Effect W Transaction
  pause t opts new_paused_status =
      lib.transact (t.contract) opts "pause" (big_int new_paused_status ∷ [])

  unfoldable pub pause_all : Transactor Bound → TransactOpts → Effect W Transaction
  pause_all t opts = lib.transact (t.contract) opts "pauseAll" []

  unfoldable pub register_operator_to_avs :
      Transactor Bound → TransactOpts → ℕ → SignatureWithSaltAndExpiry → Effect W Transaction
  register_operator_to_avs t opts operator operator_signature =
      lib.transact (t.contract) opts "registerOperatorToAVS"
        (address operator ∷ signature_struct operator_signature ∷ [])

  unfoldable pub renounce_ownership : Transactor Bound → TransactOpts → Effect W Transaction
  renounce_ownership t opts = lib.transact (t.contract) opts "renounceOwnership" []

  unfoldable pub set_aggregator : Transactor Bound → TransactOpts → ℕ → Effect W Transaction
  set_aggregator t opts new_aggregator =
      lib.transact (t.contract) opts "setAggregator" (address new_aggregator ∷ [])

  unfoldable pub set_pauser_registry : Transactor Bound → TransactOpts → ℕ → Effect W Transaction
  set_pauser_registry t opts new_pauser_registry =
      lib.transact (t.contract) opts "setPauserRegistry" (address new_pauser_registry ∷ [])

  unfoldable pub set_stale_stakes_forbidden :
      Transactor Bound → TransactOpts → Bool → Effect W Transaction
  set_stale_stakes_forbidden t opts value =
      lib.transact (t.contract) opts "setStaleStakesForbidden" (boolean value ∷ [])

  unfoldable pub transfer_ownership : Transactor Bound → TransactOpts → ℕ → Effect W Transaction
  transfer_ownership t opts new_owner =
      lib.transact (t.contract) opts "transferOwnership" (address new_owner ∷ [])

  unfoldable pub unpause : Transactor Bound → TransactOpts → Option ℤ → Effect W Transaction
  unpause t opts new_paused_status =
      lib.transact (t.contract) opts "unpause" (big_int new_paused_status ∷ [])

  unfoldable pub update_avs_metadata_uri :
      Transactor Bound → TransactOpts → String → Effect W Transaction
  update_avs_metadata_uri t opts metadata_uri =
      lib.transact (t.contract) opts "updateAVSMetadataURI" (text metadata_uri ∷ [])

  unfoldable pub update_oracle_price :
      Transactor Bound
      → TransactOpts
      → OracleRequest
      → Price
      → NonSignerStakesAndSignature
      → Effect W Transaction
  update_oracle_price t opts oracle_request price_response non_signer_stakes_and_signature =
      lib.transact (t.contract) opts "updateOraclePrice" (
        request_struct oracle_request
        ∷ price_struct price_response
        ∷ stakes_struct non_signer_stakes_and_signature
        ∷ [])
