-- ===== src/Operator/Setup.antt =====
-- `NewOperatorFromConfig` of operator/operator.go and types/avs_config.go, in the order of its
-- calls. The metrics, the node API and the logger are left out; the libraries' constructors are
-- parameters, on a state `W` of everything outside.
pub mod Laws
use blockless_avs_tools.Base.{ℕ, String, List, Bool, Option, none, some, if◌then◌else◌, replicate}
use blockless_avs_tools.Base.Effects.{Effect}
use blockless_avs_tools.Base.Calls.{Call, ◌>>=◌, ◌>>◌, pure, run, or_panic_run}
use blockless_avs_tools.Chainio.Builders.{
  BindingsLib, AvsManagersBindings, AvsReader, AvsWriter, AvsSubscriber, build_avs_reader,
  build_avs_writer, build_avs_subscriber, get_erc20_mock,
}
use blockless_avs_tools.Operator.Registration.{RegistrationLib, register_operator_on_startup}
use blockless_avs_tools.Operator.RpcClient.{AggregatorRpcClient, new_aggregator_rpc_client}

pub record NodeConfig : Type 0 where
  pub production : Bool
  pub operator_address : String
  pub operator_state_retriever_address : String
  pub avs_registry_coordinator_address : String
  pub token_strategy_addr : String
  pub avs_service_manager_address : String
  pub eth_rpc_url : String
  pub eth_ws_url : String
  pub bls_private_key_store_path : String
  pub ecdsa_private_key_store_path : String
  pub aggregator_server_ip_port_address : String
  pub register_operator_on_startup : Bool
  pub eigen_metrics_ip_port_address : String
  pub enable_metrics : Bool
  pub node_api_ip_port_address : String
  pub enable_node_api : Bool

-- `clients.BuildAllConfig`.
pub record BuildAllConfig : Type 0 where
  pub eth_http_url : String
  pub eth_ws_url : String
  pub registry_coordinator_addr : String
  pub operator_state_retriever_addr : String
  pub avs_name : String
  pub prom_metrics_ip_port_address : String

abbrev pub avs_name : String
avs_name = "blockless-avs"

-- An environment variable that is not set reads as the empty text.
abbrev pub env_or_empty : Option String → String
env_or_empty none = ""
env_or_empty (some s) = s

pub record SetupLib (W Client Bls Key Signer Wallet TxMgr Sdk Reader Writer : Type 0) : Type 0 where
  pub new_instrumented_client : String → Effect W Client
  pub new_client : String → Effect W Client
  pub lookup_env : String → Option String
  pub read_private_key_from_file : String → String → Effect W Bls
  pub chain_id : Client → Effect W ℕ
  pub signer_from_config : String → String → ℕ → Effect W Signer
  pub read_key : String → String → Effect W Key
  pub build_all : BuildAllConfig → Key → Effect W Sdk
  pub new_private_key_wallet : Client → Signer → ℕ → Effect W Wallet
  pub new_simple_tx_manager : Wallet → Client → ℕ → TxMgr
  pub build_avs_registry_chain_reader : ℕ → ℕ → Client → Effect W Reader
  pub build_avs_registry_chain_writer : ℕ → ℕ → Client → TxMgr → Effect W Writer
  pub must_register_economic_metrics : Sdk → ℕ → Effect W (Unit {0})
  pub get_operator_id : Sdk → ℕ → Effect W (List ℕ)
  pub hex_to_address : String → ℕ

-- `Operator`.
pub record Operator (W Client Rpc Manager Bls TxMgr Sdk Reader Writer : Type 0) : Type 0 where
  pub config : NodeConfig
  pub eth_client : Client
  pub avs_writer : AvsWriter Client Manager Writer TxMgr
  pub avs_reader : AvsReader Client Manager Reader
  pub avs_subscriber : AvsSubscriber Client Manager
  pub sdk_clients : Sdk
  pub bls_keypair : Bls
  pub operator_id : List ℕ
  pub operator_addr : ℕ
  pub aggregator_server_ip_port_addr : String
  pub aggregator_rpc_client : W → AggregatorRpcClient W Rpc  -- on the network as it then is

module _
    {W Client Rpc Coordinator Manager Erc20 Bls Key Signer Wallet TxMgr Sdk Reader Writer : Type 0}
    {Opts Tx Receipt : Type 0}
    (lib : SetupLib W Client Bls Key Signer Wallet TxMgr Sdk Reader Writer)
    (bindings : BindingsLib W Client Coordinator Manager Erc20)
    -- the calls of registration on the operator's clients
    (registration : Operator W Client Rpc Manager Bls TxMgr Sdk Reader Writer
      → RegistrationLib W Opts Tx Erc20 Key Receipt) where
  -- The operator's calls, `GetErc20Mock` being the one of its reader.
  abbrev pub registration_of :
      Operator W Client Rpc Manager Bls TxMgr Sdk Reader Writer
      → RegistrationLib W Opts Tx Erc20 Key Receipt
  registration_of op = record (registration op) {
    get_erc20_mock = get_erc20_mock bindings op.avs_reader.avs_service_bindings;
  }

  -- `if c.RegisterOperatorOnStartup { … }`
  abbrev pub register_if_asked :
      Operator W Client Rpc Manager Bls TxMgr Sdk Reader Writer → Key → Call W (Unit {0})
  register_if_asked op key =
      if op.config.register_operator_on_startup
      then register_operator_on_startup (registration_of op) op.operator_addr key
          (lib.hex_to_address op.config.token_strategy_addr)
      else pure tt

  unfoldable pub new_operator_from_config :
      NodeConfig → Call W (Operator W Client Rpc Manager Bls TxMgr Sdk Reader Writer)
  new_operator_from_config c =
      let connect = if c.enable_metrics then lib.new_instrumented_client else lib.new_client in
      let ecdsa_key_password = env_or_empty (lib.lookup_env "OPERATOR_ECDSA_KEY_PASSWORD") in
      let operator_addr = lib.hex_to_address c.operator_address in
      let coordinator_addr = lib.hex_to_address c.avs_registry_coordinator_address in
      let retriever_addr = lib.hex_to_address c.operator_state_retriever_address in
      let build_config : BuildAllConfig = record {
        eth_http_url = c.eth_rpc_url;
        eth_ws_url = c.eth_ws_url;
        registry_coordinator_addr = c.avs_registry_coordinator_address;
        operator_state_retriever_addr = c.operator_state_retriever_address;
        avs_name = avs_name;
        prom_metrics_ip_port_address = c.eigen_metrics_ip_port_address;
      } in
      do
        eth_rpc_client ← run (connect c.eth_rpc_url)
        eth_ws_client ← run (connect c.eth_ws_url)
        bls_key_pair ← run (
            lib.read_private_key_from_file c.bls_private_key_store_path
              (env_or_empty (lib.lookup_env "OPERATOR_BLS_KEY_PASSWORD")))
        chain_id ← run (lib.chain_id eth_rpc_client)
        signer ←
            or_panic_run
              (lib.signer_from_config c.ecdsa_private_key_store_path ecdsa_key_password chain_id)
        key ← run (lib.read_key c.ecdsa_private_key_store_path ecdsa_key_password)
        sdk_clients ← or_panic_run (lib.build_all build_config key)
        wallet ← or_panic_run (lib.new_private_key_wallet eth_rpc_client signer operator_addr)
        avs_writer ← run (
            build_avs_writer bindings lib.build_avs_registry_chain_writer
              (lib.new_simple_tx_manager wallet eth_rpc_client operator_addr) coordinator_addr
              retriever_addr eth_rpc_client)
        avs_reader ← run (
            build_avs_reader bindings lib.build_avs_registry_chain_reader coordinator_addr
              retriever_addr eth_rpc_client)
        avs_subscriber ←
            run (build_avs_subscriber bindings coordinator_addr retriever_addr eth_ws_client)
        or_panic_run (lib.must_register_economic_metrics sdk_clients operator_addr)
        let operator : Operator W Client Rpc Manager Bls TxMgr Sdk Reader Writer = record {
          config = c;
          eth_client = eth_rpc_client;
          avs_writer = avs_writer;
          avs_reader = avs_reader;
          avs_subscriber = avs_subscriber;
          sdk_clients = sdk_clients;
          bls_keypair = bls_key_pair;
          operator_id = replicate 32 0;
          operator_addr = operator_addr;
          aggregator_server_ip_port_addr = c.aggregator_server_ip_port_address;
          aggregator_rpc_client = new_aggregator_rpc_client c.aggregator_server_ip_port_address;
        }
        register_if_asked operator key
        operator_id ← run (lib.get_operator_id sdk_clients operator_addr)
        pure (record operator { operator_id = operator_id })
