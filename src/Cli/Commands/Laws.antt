-- ===== src/Cli/Commands/Laws.antt =====
-- What a command that ends well has done, and what no command does.
use blockless_avs_tools.Base.{◌≡◌, ◌≢◌, String, GoError, returned, ok, err, arith, inl, inr}
use blockless_avs_tools.Base.Effects.{Effect}
use blockless_avs_tools.Base.Calls.{Call, ◌>>=◌, >>=-eq-returned, Outcome-cases}
use blockless_avs_tools.Core.Config.{new_zero_logger}
use blockless_avs_tools.Chainio.Builders.{BindingsLib}
use blockless_avs_tools.Operator.Registration.{
  RegistrationLib, register_operator_with_avs, OperatorStatus,
}
use blockless_avs_tools.Operator.Setup.{
  NodeConfig, SetupLib, Operator, env_or_empty, registration_of, new_operator_from_config,
}
use blockless_avs_tools.Cli.Commands.{
  AppConfig, register_operator, deregister_operator, Command, or_fatal, before, register_action,
  action, main,
}

or_fatal-eq-returned :
    {W A : Type 0} {a : A} {w' : W} (m : Call W A) (w : W)
    → or_fatal m w ≡ (returned (ok a), w')
    → m w ≡ (returned (ok a), w')
or_fatal-eq-returned m w h = elim (Outcome-cases (m w).0) [
  | inl (_, p) ↦ ground arith
  | inr (inl (_, p)) ↦ ground arith
  | inr (inr (inl (_, p))) ↦ ground arith
  | inr (inr (inr (_, p))) ↦ ground arith
]

or_fatal-no_error :
    {W A : Type 0} (m : Call W A) (w : W) (e : GoError) → (or_fatal m w).0 ≢ returned (err e)
or_fatal-no_error m w e = elim (Outcome-cases (m w).0) [
  | inl (_, p) ↦ ground arith
  | inr (inl (_, p)) ↦ ground arith
  | inr (inr (inl (_, p))) ↦ ground arith
  | inr (inr (inr (_, p))) ↦ ground arith
]

module _
    {W Client Rpc Coordinator Manager Erc20 Bls Key Signer Wallet TxMgr Sdk Reader Writer : Type 0}
    {Opts Tx Receipt : Type 0}
    (lib : SetupLib W Client Bls Key Signer Wallet TxMgr Sdk Reader Writer)
    (bindings : BindingsLib W Client Coordinator Manager Erc20)
    (registration : Operator W Client Rpc Manager Bls TxMgr Sdk Reader Writer
      → RegistrationLib W Opts Tx Erc20 Key Receipt)
    (read_yaml_config : String → Effect W NodeConfig) (print : OperatorStatus → W → W) where
  -- The set-up reads the configuration and builds the operator from it.
  before-eq-returned :
      (config_path : String) (w : W) {w' : W}
      {app : AppConfig (Operator W Client Rpc Manager Bls TxMgr Sdk Reader Writer)}
      → before lib bindings registration read_yaml_config print config_path w
        ≡ (returned (ok app), w')
      → (w₁ : W) × (read_yaml_config config_path w ≡ (ok app.node_config, w₁))
        × (new_operator_from_config lib bindings registration app.node_config w₁
            ≡ (returned (ok app.operator), w'))
  unfolding before new_zero_logger
  before-eq-returned config_path w set_up =
      let (logger, w₀, logged, after_logger) = >>=-eq-returned _ _ w set_up in
      let (c, w₁, read, after_read) = >>=-eq-returned _ _ w₀ after_logger in
      let (op, w₂, built, filled) = >>=-eq-returned _ _ w₁ after_read in
      (w₁, ground arith, ground arith)

  -- register-operator-with-avs ends well only if the configuration was read, an operator was built
  -- from it, its key was read with the password of the environment or none, and this operator was
  -- then registered with this key, in this order and with nothing in between.
  pub main-registered :
      (config_path : String) (w : W) {w' : W}
      → main lib bindings registration read_yaml_config print register_operator config_path w
        ≡ (returned (ok tt), w')
      → (app : AppConfig (Operator W Client Rpc Manager Bls TxMgr Sdk Reader Writer)) × (key : Key)
        × (w₁ : W) × (w₂ : W) × (w₃ : W) × (read_yaml_config config_path w
            ≡ (ok app.node_config, w₁))
        × (new_operator_from_config lib bindings registration app.node_config w₁
            ≡ (returned (ok app.operator), w₂))
        × (lib.read_key app.node_config.ecdsa_private_key_store_path
              (env_or_empty (lib.lookup_env "OPERATOR_ECDSA_KEY_PASSWORD"))
              w₂
            ≡ (ok key, w₃))
        × (register_operator_with_avs
              (registration_of lib bindings registration app.operator)
              app.operator.operator_addr
              key
              w₃
            ≡ (ok tt, w'))
  unfolding main action register_action
  main-registered config_path w h =
      let ran =
        or_fatal-eq-returned
          (before lib bindings registration read_yaml_config print config_path
            >>= action lib bindings registration read_yaml_config print register_operator)
          w h in
      let (app, w₂, set_up, acted) = >>=-eq-returned _ _ w ran in
      let (w₁, read, built) = before-eq-returned config_path w set_up in
      let (key, w₃, key_read, registered) = >>=-eq-returned _ _ w₂ acted in
      (app, key, w₁, w₂, w₃, read, built, ground arith, ground arith)

  -- No command returns an error to its caller: it ends well, or the process is ended.
  pub main-no_error :
      (command : Command) (config_path : String) (w : W) (e : GoError)
      → (main lib bindings registration read_yaml_config print command config_path w).0
        ≢ returned (err e)
  unfolding main
  main-no_error command config_path w e =
      or_fatal-no_error
        (before lib bindings registration read_yaml_config print config_path
          >>= action lib bindings registration read_yaml_config print command)
        w e

  -- deregister-operator-with-avs never ends well.
  pub main-deregister :
      (config_path : String) (w w' : W)
      → main lib bindings registration read_yaml_config print deregister_operator config_path w
        ≢ (returned (ok tt), w')
  unfolding main action
  main-deregister config_path w w' h =
      let ran =
        or_fatal-eq-returned
          (before lib bindings registration read_yaml_config print config_path
            >>= action lib bindings registration read_yaml_config print deregister_operator)
          w h in
      let (app, w₂, set_up, acted) = >>=-eq-returned _ _ w ran in ground arith
