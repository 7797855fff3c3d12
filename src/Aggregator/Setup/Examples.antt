-- ===== src/Aggregator/Setup/Examples.antt =====
-- An aggregator built over concrete clients.
use blockless_avs_tools.Base.{ℕ, ◌+◌, List, [], ok, true, ◌≡◌, refl}
use blockless_avs_tools.Core.Config.{Config, debug_level}
use blockless_avs_tools.Chainio.Builders.{
  BindingsLib, new_avs_managers_bindings, build_avs_reader, build_avs_writer, build_avs_subscriber,
}
use blockless_avs_tools.Aggregator.State.{new_aggregator}
use blockless_avs_tools.Aggregator.Setup.{SetupLib, NewAggregator, build_aggregator}

-- A contract is its address; the state counts the calls.
abbrev pub bindings : BindingsLib ℕ ℕ ℕ ℕ ℕ
bindings = record {
  new_contract_registry_coordinator = λ addr client w. (ok addr, w + 1);
  service_manager = λ coordinator w. (ok (coordinator + 1000), w + 1);
  new_contract_blockless_avs = λ addr client w. (ok addr, w + 1);
  check_signatures = λ manager hash quorums block stakes w.
      (ok (record { signed_stake_for_quorum = []; total_stake_for_quorum = [] }, []), w);
  new_contract_erc20_mock = λ addr client w. (ok addr, w);
}

abbrev lib : SetupLib ℕ ℕ ℕ ℕ ℕ ℕ ℕ ℕ (List ℕ)
lib = record {
  build_avs_registry_chain_reader = λ addr retriever client w. (ok 30, w + 1);
  build_avs_registry_chain_writer = λ addr retriever client tx_mgr w. (ok 31, w + 1);
  build_all = λ http ws addr retriever name port key w. (ok 32, w + 1);
  new_bls_aggregator_service = λ sdk reader. [];
}

abbrev config : Config ℕ ℕ ℕ ℕ
config = record {
  ecdsa_private_key = 5;
  logger = debug_level;
  eth_http_rpc_url = "http";
  eth_ws_rpc_url = "ws";
  eth_http_client = 80;
  eth_ws_client = 81;
  operator_state_retriever_addr = 2;
  registry_coordinator_addr = 1;
  aggregator_server_ip_port_addr = "localhost:8090";
  register_operator_on_startup = true;
  signer_fn = 4;
  tx_mgr = 6;
  aggregator_address = 3;
}

abbrev built : NewAggregator ℕ ℕ ℕ ℕ ℕ (List ℕ)
built = record {
  server_ip_port_addr = "localhost:8090";
  clients = 32;
  avs_writer = record {
    avs_registry_writer = 31;
    avs_contract_bindings = record { service_manager = 1001; eth_client = 80 };
    tx_mgr = 6;
  };
  avs_subscriber = record {
    avs_contract_bindings = record { service_manager = 1001; eth_client = 81 };
  };
  agg = new_aggregator [];
}

building : build_aggregator lib bindings config 0 ≡ (ok built, 12)
unfolding build_aggregator build_avs_reader build_avs_writer build_avs_subscriber
    new_avs_managers_bindings
building = refl
