-- ===== src/Core/Config.antt =====
-- core/config/config.go and the constructor of core/logging/zerolog.go. The files, the flags and
-- the clients of go-ethereum and the SDK are parameters; addresses are numbers. The key's flag is a
-- list of bytes, since the source slices it.
pub mod Laws
pub mod CommandLine
use blockless_avs_tools.Base.{
  ℕ, String, List, [], ◌∷◌, Bool, true, false, Result, ok, err, GoError, message, wrap, Outcome,
  returned, panicked, if◌then◌else◌, ◌&&◌, ◌==◌, nat_eq, string_eq,
}
use blockless_avs_tools.Base.Effects.{Effect}
use blockless_avs_tools.Base.Calls.{Call, ◌>>=◌, ◌>>◌, pure, run, check, or_panic, panic_if}

-- `ConfigRaw`.
pub record ConfigRaw : Type 0 where
  pub environment : String
  pub eth_rpc_url : String
  pub eth_ws_url : String
  pub aggregator_server_ip_port_addr : String
  pub register_operator_on_startup : Bool

abbrev pub zero_config_raw : ConfigRaw
zero_config_raw = record {
  environment = "";
  eth_rpc_url = "";
  eth_ws_url = "";
  aggregator_server_ip_port_addr = "";
  register_operator_on_startup = false;
}

-- `BlocklessAVSContractsRaw`, the only field of `BlocklessAVSDeploymentRaw`.
pub record ContractsRaw : Type 0 where
  pub registry_coordinator_addr : String
  pub operator_state_retriever_addr : String

-- `LogLevel` of a ZeroLogger.
pub data Level : Type 0 where
  debug_level info_level : Level

-- `NewZeroLogger`, of which the level is kept.
unfoldable pub new_zero_logger : String → Outcome (Result Level)
new_zero_logger env =
    if env == "production"
    then returned (ok info_level)
    else if env == "development"
    then returned (ok debug_level)
    else panicked (message "Unknown environment")

-- `if s[:2] == "0x" { s = s[2:] }`: the slice of a shorter string panics.
unfoldable pub strip_hex_prefix : List ℕ → Outcome (Result (List ℕ))
strip_hex_prefix (a ∷ b ∷ rest) =
    if (a == 48) && (b == 120) then returned (ok rest) else returned (ok (a ∷ b ∷ rest))
strip_hex_prefix (_ ∷ []) = panicked (message "slice bounds out of range")
strip_hex_prefix [] = panicked (message "slice bounds out of range")

-- `Config`, without the BLS key and the metrics' address, which are left empty.
pub record Config (Client Key Signer TxMgr : Type 0) : Type 0 where
  pub ecdsa_private_key : Key
  pub logger : Level
  pub eth_http_rpc_url : String
  pub eth_ws_rpc_url : String
  pub eth_http_client : Client
  pub eth_ws_client : Client
  pub operator_state_retriever_addr : ℕ
  pub registry_coordinator_addr : ℕ
  pub aggregator_server_ip_port_addr : String
  pub register_operator_on_startup : Bool
  pub signer_fn : Signer
  pub tx_mgr : TxMgr
  pub aggregator_address : ℕ

-- The command line's values.
pub record Flags : Type 0 where
  pub config : String
  pub blockless_avs_deployment : String
  pub ecdsa_private_key : List ℕ

-- The readers fill what they are given as far as they can; their errors are not read.
pub record ConfigLib (W Client Key Signer Wallet TxMgr : Type 0) : Type 0 where
  pub read_yaml_config : String → ConfigRaw → W → ConfigRaw
  pub not_exist : String → W → Bool
  pub read_json_config : String → W → ContractsRaw
  pub new_client : String → Effect W Client
  pub hex_to_ecdsa : List ℕ → Result Key
  pub ecdsa_private_key_to_address : Key → Result ℕ
  pub chain_id : Client → Effect W ℕ
  pub signer_from_config : Key → ℕ → Result Signer
  pub new_private_key_wallet : Client → Signer → ℕ → Result Wallet
  pub new_simple_tx_manager : Wallet → Client → ℕ → TxMgr
  pub hex_to_address : String → ℕ

-- A call that does not touch the state.
abbrev pub at_once : {W A : Type 0} → Outcome (Result A) → Call W A
at_once o w = (o, w)

module _ {W Client Key Signer Wallet TxMgr : Type 0}
    (lib : ConfigLib W Client Key Signer Wallet TxMgr) where
  unfoldable pub validate : Config Client Key Signer TxMgr → Call W (Unit {0})
  validate c =
      panic_if (c.operator_state_retriever_addr == lib.hex_to_address "")
        (message "Config: BLSOperatorStateRetrieverAddr is required")
      >> panic_if (c.registry_coordinator_addr == lib.hex_to_address "")
          (message "Config: BlocklessAVSRegistryCoordinatorAddr is required")

  abbrev pub read_config_raw : String → Call W ConfigRaw
  read_config_raw path w =
      if path == ""
      then pure zero_config_raw w
      else pure (lib.read_yaml_config path zero_config_raw w) w

  abbrev pub read_deployment : String → Call W ContractsRaw
  read_deployment path w =
      if lib.not_exist path w
      then (panicked (wrap "Path does not exist" (message path)), w)
      else pure (lib.read_json_config path w) w

  unfoldable pub new_config : Flags → Call W (Config Client Key Signer TxMgr)
  new_config flags = do
    raw ← read_config_raw flags.config
    addresses ← read_deployment flags.blockless_avs_deployment
    logger ← at_once (new_zero_logger raw.environment)
    eth_rpc_client ← run (lib.new_client raw.eth_rpc_url)
    eth_ws_client ← run (lib.new_client raw.eth_ws_url)
    key_string ← at_once (strip_hex_prefix flags.ecdsa_private_key)
    key ← check (lib.hex_to_ecdsa key_string)
    aggregator_addr ← check (lib.ecdsa_private_key_to_address key)
    chain_id ← run (lib.chain_id eth_rpc_client)
    signer ← or_panic (lib.signer_from_config key chain_id)
    sk_wallet ← or_panic (lib.new_private_key_wallet eth_rpc_client signer aggregator_addr)
    let c : Config Client Key Signer TxMgr = record {
      ecdsa_private_key = key;
      logger = logger;
      eth_http_rpc_url = raw.eth_rpc_url;
      eth_ws_rpc_url = raw.eth_ws_url;
      eth_http_client = eth_rpc_client;
      eth_ws_client = eth_ws_client;
      operator_state_retriever_addr = lib.hex_to_address addresses.operator_state_retriever_addr;
      registry_coordinator_addr = lib.hex_to_address addresses.registry_coordinator_addr;
      aggregator_server_ip_port_addr = raw.aggregator_server_ip_port_addr;
      register_operator_on_startup = raw.register_operator_on_startup;
      signer_fn = signer;
      tx_mgr = lib.new_simple_tx_manager sk_wallet eth_rpc_client aggregator_addr;
      aggregator_address = aggregator_addr;
    }
    validate c
    pure c
