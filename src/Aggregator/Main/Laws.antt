-- ===== src/Aggregator/Main/Laws.antt =====
-- What the aggregator's process has done while it runs, and how it ends.
use blockless_avs_tools.Base.{
  String, List, [], ◌∷◌, All, Option, none, some, ok, Result, returned, panicked, exited, ◌≡◌, ◌≢◌,
  refl, ap, arith, inl, inr, Result-cases, Outcome, message,
}
use blockless_avs_tools.Base.Calls.{>>=-eq-returned, Outcome-cases}
use blockless_avs_tools.Core.Config.{Config, Flags, ConfigLib, new_config}
use blockless_avs_tools.Core.Config.Laws.{new_config-addresses}
use blockless_avs_tools.Chainio.Builders.{BindingsLib}
use blockless_avs_tools.Chainio.Subscriber.{subscribe_to_oracle_update_responses}
use blockless_avs_tools.Aggregator.Rpc.{process_signed_oracle_response}
use blockless_avs_tools.Aggregator.Send.{send_aggregated_oracle_response_to_contract}
use blockless_avs_tools.Aggregator.Setup.{SetupLib, NewAggregator, build_aggregator}
use blockless_avs_tools.Aggregator.Setup.Laws.{build_aggregator_lem}
use blockless_avs_tools.Aggregator.Start.{
  Event, ctx_done, bls_response, subscription_error, oracle_update, rpc_call, waiting, stopped,
  Status, crashed, Running, Libraries, start_loop, start,
}
use blockless_avs_tools.Aggregator.Start.Laws.{start-failed_subscription}
use blockless_avs_tools.Aggregator.Main.{
  running, ended, process, or_fatalln, set_up, aggregator_main, main,
}

-- An event that `context.Background()` allows.
abbrev pub IsNotDone : {Fp Sig : Type 0} → Event Fp Sig → Type 0
IsNotDone ctx_done = ⊥
IsNotDone _ = Unit {0}

module _ {T Fp Sig S W Opts Tx Receipt Sub : Type 0}
    (libs : Libraries T Fp Sig S W Opts Tx Receipt Sub) where
  after_send :
      (outcome : Outcome (Unit {0})) (sent : Running S W) (later : Status × Running S W)
      → later.0 ≢ stopped
      → let next : Status × Running S W = elim outcome [
        | returned _ ↦ later
        | panicked e ↦ (crashed e, sent)
        | exited s ↦ (crashed (message s), sent)
      ] in
        next.0 ≢ stopped
  after_send (returned _) sent later h = h
  after_send (panicked e) sent later h = λ e. ground arith
  after_send (exited s) sent later h = λ e. ground arith

  -- Only the context stops the main loop.
  start_loop-stopped :
      (sub : Option Sub) (events : List (Event Fp Sig)) (st : Running S W)
      → All IsNotDone events
      → (start_loop libs sub events st).0 ≢ stopped
  unfolding start_loop
  start_loop-stopped none [] st all h = cc
  start_loop-stopped none (_ ∷ _) st all h = cc
  start_loop-stopped (some sub) [] st all h = cc
  start_loop-stopped (some sub) (ctx_done ∷ events) st all h = absurd (all.0)
  start_loop-stopped (some sub) (bls_response resp ∷ events) st all h =
      let (outcome, chain) =
        send_aggregated_oracle_response_to_contract libs.big_int libs.tx_mgr resp st.agg st.chain in
      let st' : Running S W = record st { chain = chain } in
      after_send outcome st' (start_loop libs (some sub) events st')
        (start_loop-stopped (some sub) events st' (all.1)) h
  start_loop-stopped (some sub) (subscription_error f ∷ events) st all h =
      let (sub', chain) = subscribe_to_oracle_update_responses libs.watch_oracle_update st.chain in
      start_loop-stopped sub' events (record st { chain = chain }) (all.1) h
  start_loop-stopped (some sub) (oracle_update ∷ events) st all h =
      start_loop-stopped (some sub) events st (all.1) h
  start_loop-stopped (some sub) (rpc_call resp n ∷ events) st all h =
      start_loop-stopped (some sub) events
        (record st { agg = (process_signed_oracle_response libs.abi libs.service resp n st.agg).1 })
        (all.1) h

  start-stopped :
      (events : List (Event Fp Sig)) (st : Running S W)
      → All IsNotDone events
      → (start libs events st).0 ≢ stopped
  unfolding start
  start-stopped events st all =
      let (sub, chain) = subscribe_to_oracle_update_responses libs.watch_oracle_update st.chain in
      start_loop-stopped sub events (record st { chain = chain }) all

process-running : (status : Status) → or_fatalln (process status) ≡ running → status ≡ waiting
process-running waiting h = refl
process-running stopped h = ground arith
process-running (crashed e) h = ground arith

process-no_error :
    (status : Status)
    → status ≢ stopped
    → (r : Result (Unit {0})) → or_fatalln (process status) ≢ ended (returned r)
process-no_error waiting other r h = ground arith
process-no_error stopped other r h = absurd (other refl)
process-no_error (crashed e) other r h = ground arith

module _ {W Client Key Signer Wallet TxMgr Coordinator Manager Erc20 Sdk Reader Writer : Type 0}
    {T Fp Sig S Opts Tx Receipt Sub : Type 0}
    (config_lib : ConfigLib W Client Key Signer Wallet TxMgr)
    (lib : SetupLib W Client Key TxMgr Manager Sdk Reader Writer S)
    (bindings : BindingsLib W Client Coordinator Manager Erc20)
    (marshal_indent : Config Client Key Signer TxMgr → Result String) (println : String → W → W)
    (libraries : NewAggregator Client Manager Sdk Writer TxMgr S
      → Libraries T Fp Sig S W Opts Tx Receipt Sub) where
  -- The set-up reads the configuration, prints it and builds the aggregator from it.
  set_up-eq-returned :
      (flags : Flags) (w : W) {w' : W} {agg : NewAggregator Client Manager Sdk Writer TxMgr S}
      → set_up config_lib lib bindings marshal_indent println libraries flags w
        ≡ (returned (ok agg), w')
      → (config : Config Client Key Signer TxMgr) × (json : String) × (w₁ : W) × (new_config
            config_lib flags w
          ≡ (returned (ok config), w₁))
        × (marshal_indent config ≡ ok json)
        × (build_aggregator lib bindings config (println json w₁) ≡ (ok agg, w'))
  unfolding set_up
  set_up-eq-returned flags w h =
      let (config, w₁, read, after_read) = >>=-eq-returned _ _ w h in
      let (json, w₂, marshalled, after_json) = >>=-eq-returned _ _ w₁ after_read in
      let (_, w₃, printed, built) = >>=-eq-returned _ _ w₂ after_json in
      elim (Result-cases (marshal_indent config)) [
        | inl (text, good) ↦ (config, text, w₁, read, good, ground arith)
        | inr (_, bad) ↦ absurd (ground arith)
      ]

  -- The aggregator's process runs on only if the configuration could be read, with both contract
  -- addresses set, an aggregator was built from it after it had been printed, with request index 0
  -- and empty maps of prices and responses, and the contract's events could be subscribed to; its
  -- main loop then handles the events from that state without an end.
  pub main-running :
      (flags : Flags) (events : List (Event Fp Sig)) (w : W) {w' : W}
      → main config_lib lib bindings marshal_indent println libraries flags events w ≡ (running, w')
      → (config : Config Client Key Signer TxMgr) × (json : String) × (agg : NewAggregator Client
          Manager Sdk Writer TxMgr S)
        × (w₁ : W) × (w₂ : W) × (sub : Sub) × (w₃ : W) × (new_config config_lib flags w
            ≡ (returned (ok config), w₁))
        × (config.operator_state_retriever_addr ≢ config_lib.hex_to_address "")
        × (config.registry_coordinator_addr ≢ config_lib.hex_to_address "")
        × (marshal_indent config ≡ ok json)
        × (build_aggregator lib bindings config (println json w₁) ≡ (ok agg, w₂))
        × (agg.agg.oracle_request_index ≡ 0)
        × (agg.agg.prices ≡ [])
        × (agg.agg.oracle_responses ≡ [])
        × ((libraries agg).watch_oracle_update w₂ ≡ (ok sub, w₃))
        × (start (libraries agg) events (record { agg = agg.agg; chain = w₂ })).0 ≡ waiting
  unfolding main aggregator_main
  main-running flags events w h =
      elim (Outcome-cases
        (set_up config_lib lib bindings marshal_indent println libraries flags w).0) [
          | inr (inl (_, p)) ↦ absurd (ground arith)
          | inr (inr (inl (_, p))) ↦ absurd (ground arith)
          | inr (inr (inr (_, p))) ↦ absurd (ground arith)
          | inl (agg, p) ↦
              let w₂ =
                (set_up config_lib lib bindings marshal_indent println libraries flags w).1 in
              let (config, json, w₁, read, marshalled, built) =
                set_up-eq-returned flags w (ap (λ o. (o, w₂)) p) in
              let (retriever, coordinator) =
                new_config-addresses config_lib flags config w w₁ read in
              let st : Running S W = record { agg = agg.agg; chain = w₂ } in
              let status = (start (libraries agg) events st).0 in
              let runs : or_fatalln (process status) ≡ running = ground arith in
              let waits = process-running status runs in
              elim (Result-cases ((libraries agg).watch_oracle_update w₂).0) [
                | inl (sub, subscribed) ↦
                    let w₃ = ((libraries agg).watch_oracle_update w₂).1 in
                    let (from_zero, no_prices, no_responses, _, _, _) =
                      build_aggregator_lem lib bindings config agg (println json w₁) w₂ built in
                    (
                      config,
                      json,
                      agg,
                      w₁,
                      w₂,
                      sub,
                      w₃,
                      read,
                      retriever,
                      coordinator,
                      marshalled,
                      built,
                      from_zero,
                      no_prices,
                      no_responses,
                      ap (λ r. (r, w₃)) subscribed,
                      waits,
                    )
                | inr (_, failed) ↦
                    let w₃ = ((libraries agg).watch_oracle_update w₂).1 in
                    let crash =
                      start-failed_subscription (libraries agg) events st
                        (ap (λ r. (r, w₃)) failed) in
                    absurd (ground arith)
              ]
        ]

  -- The main loop gets a context that is never done, so the process never ends well and `main` never
  -- gives an error to its caller: the process runs on, or Fatal or a panic ends it.
  pub main-never_returns :
      (flags : Flags) (events : List (Event Fp Sig)) (w : W) (r : Result (Unit {0}))
      → All IsNotDone events
      → (main config_lib lib bindings marshal_indent println libraries flags events w).0
        ≢ ended (returned r)
  unfolding main aggregator_main
  main-never_returns flags events w r all h =
      elim (Outcome-cases
        (set_up config_lib lib bindings marshal_indent println libraries flags w).0) [
          | inr (inl (_, p)) ↦ ground arith
          | inr (inr (inl (_, p))) ↦ ground arith
          | inr (inr (inr (_, p))) ↦ ground arith
          | inl (agg, p) ↦
              let w₂ =
                (set_up config_lib lib bindings marshal_indent println libraries flags w).1 in
              let st : Running S W = record { agg = agg.agg; chain = w₂ } in
              let status = (start (libraries agg) events st).0 in
              let ends : or_fatalln (process status) ≡ ended (returned r) = ground arith in
              process-no_error status (start-stopped (libraries agg) events st all) r ends
        ]
