-- ===== src/Cli/Commands.antt =====
-- cli/main.go: the set-up before every command, the commands, and the end of the process. The yaml
-- reader and what the operator's construction takes are parameters; urfave/cli runs `Before` and then
-- the command's action.
pub mod Laws
mod Examples
use blockless_avs_tools.Base.{
  ℕ, String, Outcome, returned, panicked, exited, Result, ok, err, some, Option, none, message,
}
use blockless_avs_tools.Base.Effects.{Effect}
use blockless_avs_tools.Base.Calls.{Call, ◌>>=◌, run, pure}
use blockless_avs_tools.Core.Config.{Level, new_zero_logger, at_once}
use blockless_avs_tools.Chainio.Builders.{BindingsLib}
use blockless_avs_tools.Operator.Registration.{
  RegistrationLib, register_operator_with_avs, OperatorStatus, operator_status,
}
use blockless_avs_tools.Operator.Setup.{
  NodeConfig, SetupLib, Operator, env_or_empty, registration_of, new_operator_from_config,
}

pub data Command : Type 0 where
  register_operator deregister_operator print_operator_status : Command

-- `AppConfig` of app_config.go as the commands' set-up fills it.
pub record AppConfig (Op : Type 0) : Type 0 where
  pub app_name : String
  pub logger : Level
  pub node_config : NodeConfig
  pub operator : Op

-- `GetAppConfig`.
unfoldable pub get_app_config : {Op : Type 0} → Option (AppConfig Op) → Outcome (AppConfig Op)
get_app_config none = panicked (message "App config not initialized.")
get_app_config (some app) = returned app

-- `log.Fatal()` on an error of `app.Run`.
abbrev pub or_fatal : {W A : Type 0} → Call W A → Call W A
or_fatal m w =
    let (o, w') = m w in
    elim o [
      | returned r ↦ elim r [
        | ok a ↦ (returned (ok a), w')
        | err _ ↦ (exited "Failed to run app", w')
      ]
      | panicked e ↦ (panicked e, w')
      | exited s ↦ (exited s, w')
    ]

module _
    {W Client Rpc Coordinator Manager Erc20 Bls Key Signer Wallet TxMgr Sdk Reader Writer : Type 0}
    {Opts Tx Receipt : Type 0}
    (lib : SetupLib W Client Bls Key Signer Wallet TxMgr Sdk Reader Writer)
    (bindings : BindingsLib W Client Coordinator Manager Erc20)
    (registration : Operator W Client Rpc Manager Bls TxMgr Sdk Reader Writer
      → RegistrationLib W Opts Tx Erc20 Key Receipt)
    (read_yaml_config : String → Effect W NodeConfig) (print : OperatorStatus → W → W) where
  -- `app.Before`.
  unfoldable pub before :
      String → Call W (AppConfig (Operator W Client Rpc Manager Bls TxMgr Sdk Reader Writer))
  before config_path = do
    logger ← at_once (new_zero_logger "development")
    node_config ← run (read_yaml_config config_path)
    operator ← new_operator_from_config lib bindings registration node_config
    pure (record {
      app_name = "Blockless AVS Tools";
      logger = logger;
      node_config = node_config;
      operator = operator;
    })

  -- The action of register-operator-with-avs.
  unfoldable pub register_action :
      AppConfig (Operator W Client Rpc Manager Bls TxMgr Sdk Reader Writer) → Call W (Unit {0})
  register_action app = do
    operator_ecdsa_priv_key ← run (
        lib.read_key app.node_config.ecdsa_private_key_store_path
          (env_or_empty (lib.lookup_env "OPERATOR_ECDSA_KEY_PASSWORD")))
    run (
        register_operator_with_avs (registration_of lib bindings registration app.operator)
          app.operator.operator_addr operator_ecdsa_priv_key)

  -- The action of print-operator-status.
  unfoldable pub print_action :
      AppConfig (Operator W Client Rpc Manager Bls TxMgr Sdk Reader Writer) → Call W (Unit {0})
  print_action app = do
    status ← run (
        operator_status (registration_of lib bindings registration app.operator)
          app.operator.operator_addr app.operator.operator_id)
    λ w. (returned (ok tt), print status w)

  -- The action of a command. That of deregister-operator-with-avs ends in `Fatal`.
  unfoldable pub action :
      Command
      → AppConfig (Operator W Client Rpc Manager Bls TxMgr Sdk Reader Writer)
      → Call W (Unit {0})
  action register_operator app = register_action app
  action deregister_operator app = λ w. (exited "Command not implemented.", w)
  action print_operator_status app = print_action app

  -- `main` with a command.
  unfoldable pub main : Command → String → Call W (Unit {0})
  main command config_path = or_fatal (before config_path >>= action command)
