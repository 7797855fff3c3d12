-- ===== src/Aggregator/Setup/Laws.antt =====
-- What the aggregator that is returned is made of.
use blockless_avs_tools.Base.{ok, [], ◌≡◌, arith, inl, inr, Result-cases}
use blockless_avs_tools.Core.Config.{Config}
use blockless_avs_tools.Chainio.Builders.{
  BindingsLib, build_avs_reader, build_avs_writer, build_avs_subscriber,
}
use blockless_avs_tools.Chainio.Builders.Laws.{Binds, build-Binds}
use blockless_avs_tools.Aggregator.State.{new_aggregator}
use blockless_avs_tools.Aggregator.Setup.{SetupLib, NewAggregator, build_aggregator}

module _ {W Client Key Signer TxMgr Coordinator Manager Erc20 Sdk Reader Writer S : Type 0}
    (lib : SetupLib W Client Key TxMgr Manager Sdk Reader Writer S)
    (bindings : BindingsLib W Client Coordinator Manager Erc20) where
  -- An aggregator that is built starts with request index 0 and empty maps, writes to the service
  -- manager of the configured coordinator over the http client with the configured transaction
  -- manager, and listens to that coordinator's service manager over the ws client.
  pub build_aggregator_lem :
      (c : Config Client Key Signer TxMgr) (a : NewAggregator Client Manager Sdk Writer TxMgr S)
      (w w' : W)
      → build_aggregator lib bindings c w ≡ (ok a, w')
      → (a.agg.oracle_request_index ≡ 0)
        × (a.agg.prices ≡ [])
        × (a.agg.oracle_responses ≡ [])
        × (a.avs_writer.tx_mgr ≡ c.tx_mgr)
        × ((w₁ : W) × (w₂ : W) × Binds bindings c.registry_coordinator_addr c.eth_http_client
              a.avs_writer.avs_contract_bindings w₁ w₂)
        × ((w₁ : W) × (w₂ : W) × Binds bindings c.registry_coordinator_addr c.eth_ws_client
              a.avs_subscriber.avs_contract_bindings w₁ w₂)
  unfolding build_aggregator new_aggregator
  build_aggregator_lem c a w w' e =
      let addr = c.registry_coordinator_addr in
      let retriever = c.operator_state_retriever_addr in
      let http = c.eth_http_client in
      let ws = c.eth_ws_client in
      let make_reader = lib.build_avs_registry_chain_reader in
      let make_writer = lib.build_avs_registry_chain_writer in
      let reader = build_avs_reader bindings make_reader addr retriever http w in
      let writer = build_avs_writer bindings make_writer c.tx_mgr addr retriever http reader.1 in
      let subscriber = build_avs_subscriber bindings addr retriever ws writer.1 in
      let sdk =
        lib.build_all c.eth_http_rpc_url c.eth_ws_rpc_url addr retriever "blocklessAVS" ":9090"
          c.ecdsa_private_key subscriber.1 in
      elim (Result-cases reader.0) [
        | inr (_, bad) ↦ ground arith
        | inl (r, p) ↦ elim (Result-cases writer.0) [
          | inr (_, bad) ↦ ground arith
          | inl (x, q) ↦ elim (Result-cases subscriber.0) [
            | inr (_, bad) ↦ ground arith
            | inl (s, t) ↦ elim (Result-cases sdk.0) [
              | inr (_, bad) ↦ ground arith
              | inl (clients, u) ↦
                  let built : ok (record {
                    server_ip_port_addr = c.aggregator_server_ip_port_addr;
                    clients = clients;
                    avs_writer = x;
                    avs_subscriber = s;
                    agg = new_aggregator (lib.new_bls_aggregator_service clients r);
                  })
                      ≡ ok a =
                    ground arith in
                  let (_, of_writer, _) =
                    build-Binds bindings make_reader make_writer c.tx_mgr addr retriever http
                      reader.1 in
                  let (_, _, of_subscriber) =
                    build-Binds bindings make_reader make_writer c.tx_mgr addr retriever ws
                      writer.1 in
                  let (bw, bound, same) = of_writer x writer.1 (ground arith) in
                  let bound_ws = of_subscriber s subscriber.1 (ground arith) in
                  (
                    ground arith,
                    ground arith,
                    ground arith,
                    ground arith,
                    (reader.1, bw, ground arith),
                    (writer.1, subscriber.1, ground arith),
                  )
            ]
          ]
        ]
      ]
