-- ===== src/Cli/Commands/Examples.antt =====
-- A command over libraries that always succeed; the world counts the registrations.
use blockless_avs_tools.Base.{ℕ, ◌+◌, ◌≡◌, refl, String, [], ◌∷◌, none, false, ok, returned}
use blockless_avs_tools.Base.Effects.{Effect}
use blockless_avs_tools.Base.Calls.{◌>>=◌}
use blockless_avs_tools.Core.Config.{new_zero_logger}
use blockless_avs_tools.Chainio.Builders.{
  BindingsLib, new_avs_managers_bindings, build_avs_writer, build_avs_reader, build_avs_subscriber,
}
use blockless_avs_tools.Operator.Registration.{
  RegistrationLib, register_operator_with_avs, OperatorStatus,
}
use blockless_avs_tools.Operator.Setup.{
  NodeConfig, SetupLib, Operator, env_or_empty, registration_of, new_operator_from_config,
}
use blockless_avs_tools.Cli.Commands.{
  AppConfig, register_operator, before, register_action, action, main,
}
use blockless_avs_tools.Cli.Commands.Laws.{main-registered}

abbrev Handle : Type 0
Handle = Unit {0}

abbrev fine : Effect ℕ Handle
fine w = (ok tt, w)

abbrev lib : SetupLib ℕ Handle Handle Handle Handle Handle Handle Handle Handle Handle
lib = record {
  new_instrumented_client = λ url. fine;
  new_client = λ url. fine;
  lookup_env = λ name. none;
  read_private_key_from_file = λ path password. fine;
  chain_id = λ client w. (ok 1, w);
  signer_from_config = λ path password chain. fine;
  read_key = λ path password. fine;
  build_all = λ config key. fine;
  new_private_key_wallet = λ client signer addr. fine;
  new_simple_tx_manager = λ wallet client addr. tt;
  build_avs_registry_chain_reader = λ coordinator retriever client. fine;
  build_avs_registry_chain_writer = λ coordinator retriever client tx_mgr. fine;
  must_register_economic_metrics = λ sdk addr. fine;
  get_operator_id = λ sdk addr w. (ok (7 ∷ []), w);
  hex_to_address = λ s. 5;
}

abbrev bindings : BindingsLib ℕ Handle Handle Handle Handle
bindings = record {
  new_contract_registry_coordinator = λ addr client. fine;
  service_manager = λ coordinator w. (ok 9, w);
  new_contract_blockless_avs = λ addr client. fine;
  check_signatures = λ manager hash quorums block stakes w.
      (ok (record { signed_stake_for_quorum = []; total_stake_for_quorum = [] }, []), w);
  new_contract_erc20_mock = λ addr client. fine;
}

abbrev Op : Type 0
Op = Operator ℕ Handle Handle Handle Handle Handle Handle Handle Handle

abbrev registration : Op → RegistrationLib ℕ Handle Handle Handle Handle Handle
registration op = record {
  register_as_operator = λ operator. fine;
  get_strategy_and_underlying_token = λ addr w. (ok 3, w);
  get_erc20_mock = λ addr. fine;
  get_no_send_tx_opts = λ w. ((none, none), w);
  mint = λ token opts addr amount. fine;
  send = λ tx. fine;
  deposit_erc20_into_strategy = λ addr amount. fine;
  block_number = λ w. (ok 100, w);
  block_by_number = λ n w. (ok 1000, w);
  register_operator_in_quorum_with_avs_registry_coordinator =
      λ key salt expiry quorums socket w. (ok tt, w + 1);
  get_operator_id = λ addr w. (ok (7 ∷ []), w);
}

abbrev node_config : NodeConfig
node_config = record {
  production = false;
  operator_address = "0x05";
  operator_state_retriever_address = "0x05";
  avs_registry_coordinator_address = "0x05";
  token_strategy_addr = "0x05";
  avs_service_manager_address = "0x05";
  eth_rpc_url = "http";
  eth_ws_url = "ws";
  bls_private_key_store_path = "bls.json";
  ecdsa_private_key_store_path = "ecdsa.json";
  aggregator_server_ip_port_address = "localhost:8090";
  register_operator_on_startup = false;
  eigen_metrics_ip_port_address = "";
  enable_metrics = false;
  node_api_ip_port_address = "";
  enable_node_api = false;
}

abbrev read_yaml_config : String → Effect ℕ NodeConfig
read_yaml_config path w = (ok node_config, w)

abbrev print : OperatorStatus → ℕ → ℕ
print status w = w

ran :
    main lib bindings registration read_yaml_config print register_operator "operator.yaml" 0
    ≡ (returned (ok tt), 1)
unfolding main before action register_action new_zero_logger new_operator_from_config ◌>>=◌
    build_avs_writer build_avs_reader build_avs_subscriber new_avs_managers_bindings
    register_operator_with_avs
ran = refl

main-registered_example :
    (app : AppConfig Op) × (key : Handle) × (w₁ : ℕ) × (w₂ : ℕ) × (w₃ : ℕ) × (read_yaml_config
        "operator.yaml" 0
      ≡ (ok app.node_config, w₁))
    × (new_operator_from_config lib bindings registration app.node_config w₁
        ≡ (returned (ok app.operator), w₂))
    × (lib.read_key app.node_config.ecdsa_private_key_store_path
          (env_or_empty (lib.lookup_env "OPERATOR_ECDSA_KEY_PASSWORD"))
          w₂
        ≡ (ok key, w₃))
    × (register_operator_with_avs
          (registration_of lib bindings registration app.operator)
          app.operator.operator_addr
          key
          w₃
        ≡ (ok tt, 1))
main-registered_example =
    main-registered lib bindings registration read_yaml_config print "operator.yaml" 0 ran
