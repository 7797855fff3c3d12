-- ===== src/Bindings/Avs/Methods/Laws.antt =====
-- The binding calls the methods of its ABI: with arguments of their types, and it converts what they
-- return.
use blockless_avs_tools.Base.{◌≡◌, refl}
use blockless_avs_tools.Bindings.Values.{Bind}
use blockless_avs_tools.Bindings.Handles.{Caller, Transactor}
use blockless_avs_tools.Bindings.Abi.{strict}
use blockless_avs_tools.Bindings.Avs.Reads
use blockless_avs_tools.Bindings.Avs.Writes
use blockless_avs_tools.Bindings.Avs.Methods.{
  avs_abi, Write, deregister_operator_from_avs, freeze_operator, initialize, pause, pause_all,
  register_operator_to_avs, renounce_ownership, set_aggregator, set_pauser_registry,
  set_stale_stakes_forbidden, transfer_ownership, unpause, update_avs_metadata_uri,
  update_oracle_price, perform, Read, read_block_stale_measure, read_aggregator, read_avs_directory,
  read_bls_apk_registry, read_check_signatures, read_delegation,
  read_get_operator_restaked_strategies, read_get_restakeable_strategies, read_owner, read_paused,
  read_paused0, read_pauser_registry, read_price, read_prices, read_registry_coordinator,
  read_stake_registry, read_stale_stakes_forbidden, read_try_signature_and_apk_verification, ask,
}

module _ {W Bound CallOpts TransactOpts Transaction : Type 0}
    (lib : Bind W Bound CallOpts TransactOpts Transaction) where
  -- Every transactor names a method of the ABI and passes arguments of the types of its inputs: a
  -- library that refuses all else sends the same transaction.
  pub perform-strict :
      (t : Transactor Bound) (opts : TransactOpts) (m : Write) (w : W)
      → perform (strict lib avs_abi) t opts m w ≡ perform lib t opts m w
  unfolding Writes.deregister_operator_from_avs Writes.freeze_operator Writes.initialize
      Writes.pause Writes.pause_all Writes.register_operator_to_avs Writes.renounce_ownership
      Writes.set_aggregator Writes.set_pauser_registry Writes.set_stale_stakes_forbidden
      Writes.transfer_ownership Writes.unpause Writes.update_avs_metadata_uri
      Writes.update_oracle_price
  perform-strict t opts (deregister_operator_from_avs _) w = refl
  perform-strict t opts (freeze_operator _) w = refl
  perform-strict t opts (initialize _ _ _) w = refl
  perform-strict t opts (pause _) w = refl
  perform-strict t opts pause_all w = refl
  perform-strict t opts (register_operator_to_avs _ _) w = refl
  perform-strict t opts renounce_ownership w = refl
  perform-strict t opts (set_aggregator _) w = refl
  perform-strict t opts (set_pauser_registry _) w = refl
  perform-strict t opts (set_stale_stakes_forbidden _) w = refl
  perform-strict t opts (transfer_ownership _) w = refl
  perform-strict t opts (unpause _) w = refl
  perform-strict t opts (update_avs_metadata_uri _) w = refl
  perform-strict t opts (update_oracle_price _ _ _) w = refl

  -- Every caller names a method of the ABI and passes arguments of the types of its inputs: over a
  -- library that refuses all else it returns the same.
  pub ask-strict :
      (c : Caller Bound) (opts : CallOpts) (m : Read) (w : W)
      → ask (strict lib avs_abi) c opts m w ≡ ask lib c opts m w
  unfolding Reads.block_stale_measure Reads.aggregator Reads.avs_directory Reads.bls_apk_registry
      Reads.check_signatures Reads.delegation Reads.get_operator_restaked_strategies
      Reads.get_restakeable_strategies Reads.owner Reads.paused Reads.paused0 Reads.pauser_registry
      Reads.price Reads.prices Reads.registry_coordinator Reads.stake_registry
      Reads.stale_stakes_forbidden Reads.try_signature_and_apk_verification
  ask-strict c opts read_block_stale_measure w = refl
  ask-strict c opts read_aggregator w = refl
  ask-strict c opts read_avs_directory w = refl
  ask-strict c opts read_bls_apk_registry w = refl
  ask-strict c opts (read_check_signatures _ _ _ _) w = refl
  ask-strict c opts read_delegation w = refl
  ask-strict c opts (read_get_operator_restaked_strategies _) w = refl
  ask-strict c opts read_get_restakeable_strategies w = refl
  ask-strict c opts read_owner w = refl
  ask-strict c opts (read_paused _) w = refl
  ask-strict c opts read_paused0 w = refl
  ask-strict c opts read_pauser_registry w = refl
  ask-strict c opts (read_price _) w = refl
  ask-strict c opts (read_prices _) w = refl
  ask-strict c opts read_registry_coordinator w = refl
  ask-strict c opts read_stake_registry w = refl
  ask-strict c opts read_stale_stakes_forbidden w = refl
  ask-strict c opts (read_try_signature_and_apk_verification _ _ _ _) w = refl
