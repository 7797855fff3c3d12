-- ===== src/Chainio/Builders.antt =====
-- The constructors of core/chainio: bindings.go, and those of avs_reader.go, avs_writer.go and
-- avs_subscriber.go, with the two calls that the reader passes on. The generated bindings and the
-- SDK's registry clients are parameters; addresses are numbers.
pub mod Laws
use blockless_avs_tools.Base.{ℕ, List, Result, ok, err}
use blockless_avs_tools.Base.Effects.{Effect, ◌>>=◌, lift}
use blockless_avs_tools.Bindings.{NonSignerStakesAndSignature, QuorumStakeTotals}

-- `CheckSignatures` returns the totals and a hash.
pub record BindingsLib (W Client Coordinator Manager Erc20 : Type 0) : Type 0 where
  pub new_contract_registry_coordinator : ℕ → Client → Effect W Coordinator
  pub service_manager : Coordinator → Effect W ℕ
  pub new_contract_blockless_avs : ℕ → Client → Effect W Manager
  pub check_signatures :
      Manager
      → List ℕ
      → List ℕ
      → ℕ
      → NonSignerStakesAndSignature
      → Effect W (QuorumStakeTotals × List ℕ)
  pub new_contract_erc20_mock : ℕ → Client → Effect W Erc20

-- `AvsManagersBindings`.
pub record AvsManagersBindings (Client Manager : Type 0) : Type 0 where
  pub service_manager : Manager
  pub eth_client : Client

-- `AvsReader`, `AvsWriter` and `AvsSubscriber`; the writer's client is never set.
pub record AvsReader (Client Manager Reader : Type 0) : Type 0 where
  pub avs_registry_reader : Reader
  pub avs_service_bindings : AvsManagersBindings Client Manager

pub record AvsWriter (Client Manager Writer TxMgr : Type 0) : Type 0 where
  pub avs_registry_writer : Writer
  pub avs_contract_bindings : AvsManagersBindings Client Manager
  pub tx_mgr : TxMgr

pub record AvsSubscriber (Client Manager : Type 0) : Type 0 where
  pub avs_contract_bindings : AvsManagersBindings Client Manager

module _ {W Client Coordinator Manager Erc20 : Type 0}
    (lib : BindingsLib W Client Coordinator Manager Erc20) where
  unfoldable pub new_avs_managers_bindings :
      ℕ → ℕ → Client → Effect W (AvsManagersBindings Client Manager)
  new_avs_managers_bindings registry_coordinator_addr operator_state_retriever_addr eth_client = do
    coordinator ← lib.new_contract_registry_coordinator registry_coordinator_addr eth_client
    service_manager_addr ← lib.service_manager coordinator
    service_manager ← lib.new_contract_blockless_avs service_manager_addr eth_client
    lift (ok (record { service_manager = service_manager; eth_client = eth_client }))

  -- `build_reader` is `BuildAvsRegistryChainReader`.
  unfoldable pub build_avs_reader :
      {Reader : Type 0}
      → (ℕ → ℕ → Client → Effect W Reader)
      → ℕ
      → ℕ
      → Client
      → Effect W (AvsReader Client Manager Reader)
  build_avs_reader build_reader coordinator_addr retriever_addr eth_client = do
    bindings ← new_avs_managers_bindings coordinator_addr retriever_addr eth_client
    reader ← build_reader coordinator_addr retriever_addr eth_client
    lift (ok (record { avs_registry_reader = reader; avs_service_bindings = bindings }))

  -- `build_writer` is `BuildAvsRegistryChainWriter`.
  unfoldable pub build_avs_writer :
      {Writer TxMgr : Type 0}
      → (ℕ → ℕ → Client → TxMgr → Effect W Writer)
      → TxMgr
      → ℕ
      → ℕ
      → Client
      → Effect W (AvsWriter Client Manager Writer TxMgr)
  build_avs_writer build_writer tx_mgr coordinator_addr retriever_addr eth_client = do
    bindings ← new_avs_managers_bindings coordinator_addr retriever_addr eth_client
    writer ← build_writer coordinator_addr retriever_addr eth_client tx_mgr
    lift (
        ok (record {
          avs_registry_writer = writer;
          avs_contract_bindings = bindings;
          tx_mgr = tx_mgr;
        }))

  unfoldable pub build_avs_subscriber : ℕ → ℕ → Client → Effect W (AvsSubscriber Client Manager)
  build_avs_subscriber coordinator_addr retriever_addr eth_client = do
    bindings ← new_avs_managers_bindings coordinator_addr retriever_addr eth_client
    lift (ok (record { avs_contract_bindings = bindings }))

  unfoldable pub check_signatures :
      {Reader : Type 0}
      → AvsReader Client Manager Reader
      → List ℕ
      → List ℕ
      → ℕ
      → NonSignerStakesAndSignature
      → Effect W QuorumStakeTotals
  check_signatures r msg_hash quorum_numbers reference_block_number non_signers = do
    answer ←
        lib.check_signatures r.avs_service_bindings.service_manager msg_hash quorum_numbers
          reference_block_number non_signers
    lift (ok (answer.0))

  -- `GetErc20Mock` of the bindings, which the reader's passes on.
  unfoldable pub get_erc20_mock : AvsManagersBindings Client Manager → ℕ → Effect W Erc20
  get_erc20_mock b token_addr = lib.new_contract_erc20_mock token_addr b.eth_client
