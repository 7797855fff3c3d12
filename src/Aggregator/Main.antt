-- ===== src/Aggregator/Main.antt =====
-- aggregator/cmd/main.go: the configuration, the aggregator that is built from it, and its main loop,
-- which gets `context.Background()`. The marshaller is a parameter, and so is what the clients of the
-- built aggregator do; urfave/cli runs the action and gives its error to `main`.
pub mod Laws
mod Examples
use blockless_avs_tools.Base.{
  String, List, Outcome, returned, panicked, exited, Result, ok, err, message, GoError,
}
use blockless_avs_tools.Base.Effects.{Effect}
use blockless_avs_tools.Base.Calls.{Call, ◌>>=◌, run, pure, or_exit}
use blockless_avs_tools.Core.Config.{Config, Flags, ConfigLib, new_config}
use blockless_avs_tools.Chainio.Builders.{BindingsLib}
use blockless_avs_tools.Aggregator.Setup.{SetupLib, NewAggregator, build_aggregator}
use blockless_avs_tools.Aggregator.Start.{
  Event, Status, waiting, stopped, crashed, Running, Libraries, start,
}

-- The process after some events: it is in the main loop, or `main` ended.
pub data Process : Type 0 where
  running : Process
  ended : Outcome (Result (Unit {0})) → Process

-- What `Start` gives to its caller.
abbrev pub process : Status → Process
process waiting = running
process stopped = ended (returned (ok tt))
process (crashed e) = ended (panicked e)

-- `log.Fatalln` on an error of `app.Run`.
abbrev pub or_fatalln : Process → Process
or_fatalln running = running
or_fatalln (ended (returned (ok _))) = ended (returned (ok tt))
or_fatalln (ended (returned (err _))) = ended (exited "Application failed.")
or_fatalln (ended (panicked e)) = ended (panicked e)
or_fatalln (ended (exited s)) = ended (exited s)

module _ {W Client Key Signer Wallet TxMgr Coordinator Manager Erc20 Sdk Reader Writer : Type 0}
    {T Fp Sig S Opts Tx Receipt Sub : Type 0}
    (config_lib : ConfigLib W Client Key Signer Wallet TxMgr)
    (lib : SetupLib W Client Key TxMgr Manager Sdk Reader Writer S)
    (bindings : BindingsLib W Client Coordinator Manager Erc20)
    (marshal_indent : Config Client Key Signer TxMgr → Result String) (println : String → W → W)
    (libraries : NewAggregator Client Manager Sdk Writer TxMgr S
      → Libraries T Fp Sig S W Opts Tx Receipt Sub) where
  -- `aggregatorMain` up to the main loop. Of the exit by Fatalf the text of the error is left out.
  unfoldable pub set_up : Flags → Call W (NewAggregator Client Manager Sdk Writer TxMgr S)
  set_up flags = do
    config ← new_config config_lib flags
    config_json ← or_exit (λ w. (marshal_indent config, w)) "json"
    _ ← λ w. (returned (ok tt), println config_json w)
    run (build_aggregator lib bindings config)

  unfoldable pub aggregator_main : Flags → List (Event Fp Sig) → W → Process × W
  aggregator_main flags events w =
      let (o, w') = set_up flags w in
      elim o [
        | panicked e ↦ (ended (panicked e), w')
        | exited s ↦ (ended (exited s), w')
        | returned r ↦ elim r [
          | err e ↦ (ended (returned (err e)), w')
          | ok agg ↦
              let (status, st) =
                start (libraries agg) events (record { agg = agg.agg; chain = w' }) in
              (process status, st.chain)
        ]
      ]

  unfoldable pub main : Flags → List (Event Fp Sig) → W → Process × W
  main flags events w = let (p, w') = aggregator_main flags events w in (or_fatalln p, w')
