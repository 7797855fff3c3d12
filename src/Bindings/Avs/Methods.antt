-- ===== src/Bindings/Avs/Methods.antt =====
-- The ABI of contracts/bindings/BlocklessAVS/binding.go, and its methods as values: a method with its
-- arguments, and the caller or transactor that performs it. go-ethereum names the second `paused`
-- of the ABI `paused0`.
pub mod Laws
pub mod Types
use blockless_avs_tools.Base.{ℕ, ℤ, String, List, [], ◌∷◌, Bool, Option}
use blockless_avs_tools.Base.Effects.{Effect}
use blockless_avs_tools.Base.Calls.{Call}
use blockless_avs_tools.Bindings.{
  Price, OracleRequest, Bn254G1Point, Bn254G2Point, NonSignerStakesAndSignature, QuorumStakeTotals,
  SignatureWithSaltAndExpiry,
}
use blockless_avs_tools.Bindings.Values.{Bind}
use blockless_avs_tools.Bindings.Handles.{Caller, Transactor}
use blockless_avs_tools.Bindings.Abi.{Abi, Signature}
use blockless_avs_tools.Bindings.Avs.Reads
use blockless_avs_tools.Bindings.Avs.Writes

abbrev pub avs_abi : Abi
avs_abi =
    ("BLOCK_STALE_MEASURE", record { inputs = []; outputs = "uint32" ∷ [] })
    ∷ ("aggregator", record { inputs = []; outputs = "address" ∷ [] })
    ∷ ("avsDirectory", record { inputs = []; outputs = "address" ∷ [] })
    ∷ ("blsApkRegistry", record { inputs = []; outputs = "address" ∷ [] })
    ∷ (
      "checkSignatures",
      record {
        inputs =
            "bytes32" ∷ "bytes" ∷ "uint32"
            ∷ "structIBLSSignatureChecker.NonSignerStakesAndSignature" ∷ [];
        outputs = "structIBLSSignatureChecker.QuorumStakeTotals" ∷ "bytes32" ∷ [];
      },
    )
    ∷ ("delegation", record { inputs = []; outputs = "address" ∷ [] })
    ∷ ("deregisterOperatorFromAVS", record { inputs = "address" ∷ []; outputs = [] })
    ∷ ("freezeOperator", record { inputs = "address" ∷ []; outputs = [] })
    ∷ (
      "getOperatorRestakedStrategies",
      record { inputs = "address" ∷ []; outputs = "address[]" ∷ [] },
    )
    ∷ ("getRestakeableStrategies", record { inputs = []; outputs = "address[]" ∷ [] })
    ∷ ("initialize", record { inputs = "address" ∷ "address" ∷ "address" ∷ []; outputs = [] })
    ∷ ("owner", record { inputs = []; outputs = "address" ∷ [] })
    ∷ ("pause", record { inputs = "uint256" ∷ []; outputs = [] })
    ∷ ("pauseAll", record { inputs = []; outputs = [] })
    ∷ ("paused", record { inputs = "uint8" ∷ []; outputs = "bool" ∷ [] })
    ∷ ("paused0", record { inputs = []; outputs = "uint256" ∷ [] })
    ∷ ("pauserRegistry", record { inputs = []; outputs = "address" ∷ [] })
    ∷ ("price", record { inputs = "string" ∷ []; outputs = "structIBlocklessAVS.Price" ∷ [] })
    ∷ ("prices", record { inputs = "string" ∷ []; outputs = "string" ∷ "uint256" ∷ "uint32" ∷ [] })
    ∷ (
      "registerOperatorToAVS",
      record {
        inputs = "address" ∷ "structISignatureUtils.SignatureWithSaltAndExpiry" ∷ [];
        outputs = [];
      },
    )
    ∷ ("registryCoordinator", record { inputs = []; outputs = "address" ∷ [] })
    ∷ ("renounceOwnership", record { inputs = []; outputs = [] })
    ∷ ("setAggregator", record { inputs = "address" ∷ []; outputs = [] })
    ∷ ("setPauserRegistry", record { inputs = "address" ∷ []; outputs = [] })
    ∷ ("setStaleStakesForbidden", record { inputs = "bool" ∷ []; outputs = [] })
    ∷ ("stakeRegistry", record { inputs = []; outputs = "address" ∷ [] })
    ∷ ("staleStakesForbidden", record { inputs = []; outputs = "bool" ∷ [] })
    ∷ ("transferOwnership", record { inputs = "address" ∷ []; outputs = [] })
    ∷ (
      "trySignatureAndApkVerification",
      record {
        inputs =
            "bytes32" ∷ "structBN254.G1Point" ∷ "structBN254.G2Point" ∷ "structBN254.G1Point" ∷ [];
        outputs = "bool" ∷ "bool" ∷ [];
      },
    )
    ∷ ("unpause", record { inputs = "uint256" ∷ []; outputs = [] })
    ∷ ("updateAVSMetadataURI", record { inputs = "string" ∷ []; outputs = [] })
    ∷ (
      "updateOraclePrice",
      record {
        inputs =
            "structIBlocklessAVS.OracleRequest" ∷ "structIBlocklessAVS.Price"
            ∷ "structIBLSSignatureChecker.NonSignerStakesAndSignature" ∷ [];
        outputs = [];
      },
    )
    ∷ []

-- A transactor method with its arguments.
pub data Write : Type 0 where
  deregister_operator_from_avs : ℕ → Write
  freeze_operator : ℕ → Write
  initialize : ℕ → ℕ → ℕ → Write
  pause : Option ℤ → Write
  pause_all : Write
  register_operator_to_avs : ℕ → SignatureWithSaltAndExpiry → Write
  renounce_ownership : Write
  set_aggregator : ℕ → Write
  set_pauser_registry : ℕ → Write
  set_stale_stakes_forbidden : Bool → Write
  transfer_ownership : ℕ → Write
  unpause : Option ℤ → Write
  update_avs_metadata_uri : String → Write
  update_oracle_price : OracleRequest → Price → NonSignerStakesAndSignature → Write

-- A caller method with its arguments.
pub data Read : Type 0 where
  read_block_stale_measure : Read
  read_aggregator : Read
  read_avs_directory : Read
  read_bls_apk_registry : Read
  read_check_signatures : List ℕ → List ℕ → ℕ → NonSignerStakesAndSignature → Read
  read_delegation : Read
  read_get_operator_restaked_strategies : ℕ → Read
  read_get_restakeable_strategies : Read
  read_owner : Read
  read_paused : ℕ → Read
  read_paused0 : Read
  read_pauser_registry : Read
  read_price : String → Read
  read_prices : String → Read
  read_registry_coordinator : Read
  read_stake_registry : Read
  read_stale_stakes_forbidden : Read
  read_try_signature_and_apk_verification :
      List ℕ → Bn254G1Point → Bn254G2Point → Bn254G1Point → Read

abbrev pub Answer : Read → Type 0
Answer read_block_stale_measure = ℕ
Answer read_aggregator = ℕ
Answer read_avs_directory = ℕ
Answer read_bls_apk_registry = ℕ
Answer (read_check_signatures _ _ _ _) = QuorumStakeTotals × List ℕ
Answer read_delegation = ℕ
Answer (read_get_operator_restaked_strategies _) = List ℕ
Answer read_get_restakeable_strategies = List ℕ
Answer read_owner = ℕ
Answer (read_paused _) = Bool
Answer read_paused0 = Option ℤ
Answer read_pauser_registry = ℕ
Answer (read_price _) = Price
Answer (read_prices _) = Price
Answer read_registry_coordinator = ℕ
Answer read_stake_registry = ℕ
Answer read_stale_stakes_forbidden = Bool
Answer (read_try_signature_and_apk_verification _ _ _ _) = Bool × Bool

module _ {W Bound CallOpts TransactOpts Transaction : Type 0}
    (lib : Bind W Bound CallOpts TransactOpts Transaction) where
  abbrev pub perform : Transactor Bound → TransactOpts → Write → Effect W Transaction
  perform t opts (deregister_operator_from_avs x0) =
      Writes.deregister_operator_from_avs lib t opts x0
  perform t opts (freeze_operator x0) = Writes.freeze_operator lib t opts x0
  perform t opts (initialize x0 x1 x2) = Writes.initialize lib t opts x0 x1 x2
  perform t opts (pause x0) = Writes.pause lib t opts x0
  perform t opts pause_all = Writes.pause_all lib t opts
  perform t opts (register_operator_to_avs x0 x1) = Writes.register_operator_to_avs lib t opts x0 x1
  perform t opts renounce_ownership = Writes.renounce_ownership lib t opts
  perform t opts (set_aggregator x0) = Writes.set_aggregator lib t opts x0
  perform t opts (set_pauser_registry x0) = Writes.set_pauser_registry lib t opts x0
  perform t opts (set_stale_stakes_forbidden x0) = Writes.set_stale_stakes_forbidden lib t opts x0
  perform t opts (transfer_ownership x0) = Writes.transfer_ownership lib t opts x0
  perform t opts (unpause x0) = Writes.unpause lib t opts x0
  perform t opts (update_avs_metadata_uri x0) = Writes.update_avs_metadata_uri lib t opts x0
  perform t opts (update_oracle_price x0 x1 x2) = Writes.update_oracle_price lib t opts x0 x1 x2

  abbrev pub ask : Caller Bound → CallOpts → (m : Read) → Call W (Answer m)
  ask c opts read_block_stale_measure = Reads.block_stale_measure lib c opts
  ask c opts read_aggregator = Reads.aggregator lib c opts
  ask c opts read_avs_directory = Reads.avs_directory lib c opts
  ask c opts read_bls_apk_registry = Reads.bls_apk_registry lib c opts
  ask c opts (read_check_signatures x0 x1 x2 x3) = Reads.check_signatures lib c opts x0 x1 x2 x3
  ask c opts read_delegation = Reads.delegation lib c opts
  ask c opts (read_get_operator_restaked_strategies x0) =
      Reads.get_operator_restaked_strategies lib c opts x0
  ask c opts read_get_restakeable_strategies = Reads.get_restakeable_strategies lib c opts
  ask c opts read_owner = Reads.owner lib c opts
  ask c opts (read_paused x0) = Reads.paused lib c opts x0
  ask c opts read_paused0 = Reads.paused0 lib c opts
  ask c opts read_pauser_registry = Reads.pauser_registry lib c opts
  ask c opts (read_price x0) = Reads.price lib c opts x0
  ask c opts (read_prices x0) = Reads.prices lib c opts x0
  ask c opts read_registry_coordinator = Reads.registry_coordinator lib c opts
  ask c opts read_stake_registry = Reads.stake_registry lib c opts
  ask c opts read_stale_stakes_forbidden = Reads.stale_stakes_forbidden lib c opts
  ask c opts (read_try_signature_and_apk_verification x0 x1 x2 x3) =
      Reads.try_signature_and_apk_verification lib c opts x0 x1 x2 x3
