-- ===== src/Aggregator/Main/Examples.antt =====
-- The aggregator's process over libraries that always succeed; the world counts the calls.
use blockless_avs_tools.Base.{
  ℕ, ◌+◌, ◌≡◌, ◌≢◌, refl, String, List, [], ◌∷◌, Dict, Result, ok, returned, false, if◌then◌else◌,
  ◌==◌, string_eq, nat_eq,
}
use blockless_avs_tools.Base.Calls.{◌>>=◌}
use blockless_avs_tools.Core.Examples.{abi}
use blockless_avs_tools.Core.Config.{
  Config, ConfigLib, Flags, new_config, validate, new_zero_logger, strip_hex_prefix,
}
use blockless_avs_tools.Chainio.Builders.{
  new_avs_managers_bindings, build_avs_reader, build_avs_writer, build_avs_subscriber,
}
use blockless_avs_tools.Chainio.Subscriber.{subscribe_to_oracle_update_responses}
use blockless_avs_tools.Aggregator.Examples.{service, signed}
use blockless_avs_tools.Aggregator.Setup.{SetupLib, NewAggregator, build_aggregator}
use blockless_avs_tools.Aggregator.Setup.Examples.{bindings}
use blockless_avs_tools.Aggregator.Start.{
  Event, oracle_update, rpc_call, waiting, Libraries, start_loop, start,
}
use blockless_avs_tools.Aggregator.Main.{running, set_up, aggregator_main, main}
use blockless_avs_tools.Aggregator.Main.Laws.{main-running}

abbrev config_lib : ConfigLib ℕ ℕ ℕ ℕ ℕ ℕ
config_lib = record {
  read_yaml_config = λ path raw w. record raw { environment = "production"; eth_rpc_url = "http" };
  not_exist = λ path w. false;
  read_json_config = λ path w. record {
    registry_coordinator_addr = "coordinator";
    operator_state_retriever_addr = "retriever";
  };
  new_client = λ url w. (ok 80, w + 1);
  hex_to_ecdsa = λ bytes. ok 5;
  ecdsa_private_key_to_address = λ key. ok 3;
  chain_id = λ client w. (ok 31_337, w + 1);
  signer_from_config = λ key chain. ok 4;
  new_private_key_wallet = λ client signer addr. ok 9;
  new_simple_tx_manager = λ wallet client addr. 6;
  hex_to_address = λ s. if s == "" then 0 else 1;
}

abbrev lib : SetupLib ℕ ℕ ℕ ℕ ℕ ℕ ℕ ℕ (Dict ℕ ℕ)
lib = record {
  build_avs_registry_chain_reader = λ addr retriever client w. (ok 30, w + 1);
  build_avs_registry_chain_writer = λ addr retriever client tx_mgr w. (ok 31, w + 1);
  build_all = λ http ws addr retriever name port key w. (ok 32, w + 1);
  new_bls_aggregator_service = λ sdk reader. [];
}

abbrev json : Config ℕ ℕ ℕ ℕ → Result String
json config = ok "{}"

abbrev println : String → ℕ → ℕ
println line w = w + 1

abbrev libraries :
    NewAggregator ℕ ℕ ℕ ℕ ℕ (Dict ℕ ℕ) → Libraries (Unit {0}) ℕ ℕ (Dict ℕ ℕ) ℕ ℕ ℕ ℕ ℕ
libraries agg = record {
  abi = abi;
  service = service;
  big_int = λ x. x;
  tx_mgr = record {
    get_no_send_tx_opts = λ w. (ok 0, w);
    update_oracle_price = λ opts req p stakes w. (ok 1, w);
    send = λ tx w. (ok 2, w + 1);
  };
  watch_oracle_update = λ w. (ok 7, w + 1);
}

abbrev flags : Flags
flags = record {
  config = "aggregator.yaml";
  blockless_avs_deployment = "deployment.json";
  ecdsa_private_key = 48 ∷ 120 ∷ 50 ∷ [];
}

abbrev events : List (Event ℕ ℕ)
events = rpc_call (signed 5) (ok 11) ∷ oracle_update ∷ []

ran : main config_lib lib bindings json println libraries flags events 0 ≡ (running, 17)
unfolding main aggregator_main set_up new_config validate new_zero_logger strip_hex_prefix
    build_aggregator build_avs_reader build_avs_writer build_avs_subscriber
    new_avs_managers_bindings start start_loop subscribe_to_oracle_update_responses ◌>>=◌
ran = refl

main-running_example :
    (config : Config ℕ ℕ ℕ ℕ) × (json_text : String) × (agg : NewAggregator ℕ ℕ ℕ ℕ ℕ (Dict ℕ ℕ))
    × (w₁ : ℕ) × (w₂ : ℕ) × (sub : ℕ) × (w₃ : ℕ) × (new_config config_lib flags 0
        ≡ (returned (ok config), w₁))
    × (config.operator_state_retriever_addr ≢ config_lib.hex_to_address "")
    × (config.registry_coordinator_addr ≢ config_lib.hex_to_address "")
    × (json config ≡ ok json_text)
    × (build_aggregator lib bindings config (println json_text w₁) ≡ (ok agg, w₂))
    × (agg.agg.oracle_request_index ≡ 0)
    × (agg.agg.prices ≡ [])
    × (agg.agg.oracle_responses ≡ [])
    × ((libraries agg).watch_oracle_update w₂ ≡ (ok sub, w₃))
    × (start (libraries agg) events (record { agg = agg.agg; chain = w₂ })).0 ≡ waiting
main-running_example =
    main-running config_lib lib bindings json println libraries flags events 0 ran
