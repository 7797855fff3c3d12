-- ===== src/Operator/Setup/Laws.antt =====
-- What the operator that is returned is made of.
use blockless_avs_tools.Base.{ok, returned, ◌≡◌, arith}
use blockless_avs_tools.Base.Calls.{◌>>=◌, ◌>>◌, pure, run, Ensures, then, >>=-eq-returned}
use blockless_avs_tools.Chainio.Builders.{BindingsLib}
use blockless_avs_tools.Operator.Registration.{RegistrationLib}
use blockless_avs_tools.Operator.Setup.{
  NodeConfig, SetupLib, Operator, register_if_asked, new_operator_from_config,
}

module _
    {W Client Rpc Coordinator Manager Erc20 Bls Key Signer Wallet TxMgr Sdk Reader Writer : Type 0}
    {Opts Tx Receipt : Type 0}
    (lib : SetupLib W Client Bls Key Signer Wallet TxMgr Sdk Reader Writer)
    (bindings : BindingsLib W Client Coordinator Manager Erc20)
    (registration : Operator W Client Rpc Manager Bls TxMgr Sdk Reader Writer
      → RegistrationLib W Opts Tx Erc20 Key Receipt) where
  -- What `new_operator_from_config-id_after_registration` states of an operator and the state left.
  pub HasReadId :
      NodeConfig → Operator W Client Rpc Manager Bls TxMgr Sdk Reader Writer → W → Type 0
  HasReadId c op w' =
      (unregistered : Operator W Client Rpc Manager Bls TxMgr Sdk Reader Writer) × (key : Key)
      × (w₁ : W) × (w₂ : W) × (register_if_asked lib bindings registration unregistered key w₁
          ≡ (returned (ok tt), w₂))
      × (lib.get_operator_id op.sdk_clients op.operator_addr w₂ ≡ (ok op.operator_id, w'))
      × (op ≡ record unregistered { operator_id = op.operator_id })
      × (op.config ≡ c)

  register_then_read_id :
      (key : Key) (op : Operator W Client Rpc Manager Bls TxMgr Sdk Reader Writer)
      → Ensures (HasReadId op.config) (
          register_if_asked lib bindings registration op key
          >> (run (lib.get_operator_id op.sdk_clients op.operator_addr) >>= λ id.
              pure (record op { operator_id = id })))
  unfolding HasReadId
  register_then_read_id key u w w' op e =
      let (_, w₁, registered, e₁) =
        >>=-eq-returned (register_if_asked lib bindings registration u key) _ w e in
      let (id, w₂, got, e₂) =
        >>=-eq-returned (run (lib.get_operator_id u.sdk_clients u.operator_addr)) _ w₁ e₁ in
      (u, key, w, w₁, registered, ground arith, ground arith, ground arith)

  -- An operator that is returned has the id that `GetOperatorId` last answered for its address,
  -- read after its registration, if the configuration asked for one: that registration returned.
  pub new_operator_from_config-id_after_registration :
      (c : NodeConfig) (op : Operator W Client Rpc Manager Bls TxMgr Sdk Reader Writer) (w w' : W)
      → new_operator_from_config lib bindings registration c w ≡ (returned (ok op), w')
      → HasReadId c op w'
  unfolding new_operator_from_config
  new_operator_from_config-id_after_registration c op w w' =
      let after : Ensures (HasReadId c) (new_operator_from_config lib bindings registration c) =
        then _ _ λ _. then _ _ λ _. then _ _ λ _. then _ _ λ _. then _ _ λ _. then _ _ λ _.
          then _ _ λ _. then _ _ λ _.
            then _ _ λ _. then _ _ λ _. then _ _ λ _. then _ _ λ _. register_then_read_id _ _ in
      after w w' op
