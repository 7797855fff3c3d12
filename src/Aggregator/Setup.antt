-- ===== src/Aggregator/Setup.antt =====
-- `NewAggregator` of aggregator/aggregator.go: the clients that it builds from the configuration,
-- in order, and the maps that it starts with. The SDK's constructors are parameters.
pub mod Laws
pub mod Examples
use blockless_avs_tools.Base.{ℕ, String}
use blockless_avs_tools.Base.Effects.{Effect, ◌>>=◌, lift}
use blockless_avs_tools.Base.{ok}
use blockless_avs_tools.Core.Config.{Config}
use blockless_avs_tools.Chainio.Builders.{
  BindingsLib, AvsReader, AvsWriter, AvsSubscriber, build_avs_reader, build_avs_writer,
  build_avs_subscriber,
}
use blockless_avs_tools.Aggregator.State.{Aggregator, new_aggregator}

-- `clients.BuildAll` and the services over its clients; `Sdk` are the clients, `S` the state of the
-- aggregation service.
pub record SetupLib (W Client Key TxMgr Manager Sdk Reader Writer S : Type 0) : Type 0 where
  pub build_avs_registry_chain_reader : ℕ → ℕ → Client → Effect W Reader
  pub build_avs_registry_chain_writer : ℕ → ℕ → Client → TxMgr → Effect W Writer
  pub build_all : String → String → ℕ → ℕ → String → String → Key → Effect W Sdk
  pub new_bls_aggregator_service : Sdk → AvsReader Client Manager Reader → S

-- `Aggregator`: the fields that `NewAggregator` fills, `agg` being those that change later.
pub record NewAggregator (Client Manager Sdk Writer TxMgr S : Type 0) : Type 0 where
  pub server_ip_port_addr : String
  pub clients : Sdk
  pub avs_writer : AvsWriter Client Manager Writer TxMgr
  pub avs_subscriber : AvsSubscriber Client Manager
  pub agg : Aggregator S

module _ {W Client Key Signer TxMgr Coordinator Manager Erc20 Sdk Reader Writer S : Type 0}
    (lib : SetupLib W Client Key TxMgr Manager Sdk Reader Writer S)
    (bindings : BindingsLib W Client Coordinator Manager Erc20) where
  unfoldable pub build_aggregator :
      Config Client Key Signer TxMgr → Effect W (NewAggregator Client Manager Sdk Writer TxMgr S)
  build_aggregator c = do
    avs_reader ←
        build_avs_reader bindings lib.build_avs_registry_chain_reader c.registry_coordinator_addr
          c.operator_state_retriever_addr c.eth_http_client
    avs_writer ←
        build_avs_writer bindings lib.build_avs_registry_chain_writer c.tx_mgr
          c.registry_coordinator_addr c.operator_state_retriever_addr c.eth_http_client
    avs_subscriber ←
        build_avs_subscriber bindings c.registry_coordinator_addr c.operator_state_retriever_addr
          c.eth_ws_client
    sdk_clients ←
        lib.build_all c.eth_http_rpc_url c.eth_ws_rpc_url c.registry_coordinator_addr
          c.operator_state_retriever_addr "blocklessAVS" ":9090" c.ecdsa_private_key
    lift (
        ok (record {
          server_ip_port_addr = c.aggregator_server_ip_port_addr;
          clients = sdk_clients;
          avs_writer = avs_writer;
          avs_subscriber = avs_subscriber;
          agg = new_aggregator (lib.new_bls_aggregator_service sdk_clients avs_reader);
        }))
