-- ===== src/Chainio/Builders/Laws.antt =====
-- What the constructors bind.
use blockless_avs_tools.Base.{ℕ, ok, ◌≡◌, arith, inl, inr, Result-cases}
use blockless_avs_tools.Base.Effects.{Effect}
use blockless_avs_tools.Chainio.Builders.{
  BindingsLib, AvsManagersBindings, AvsReader, AvsWriter, AvsSubscriber, new_avs_managers_bindings,
  build_avs_reader, build_avs_writer, build_avs_subscriber,
}

module _ {W Client Coordinator Manager Erc20 : Type 0}
    (lib : BindingsLib W Client Coordinator Manager Erc20) where
  -- What the bindings of a coordinator's address are: the contract at the address that this
  -- coordinator names its service manager, over the same client.
  pub Binds : ℕ → Client → AvsManagersBindings Client Manager → W → W → Type 0
  Binds addr client b w w' =
      (coordinator : Coordinator) × (manager_addr : ℕ) × (w₁ : W) × (w₂ : W)
      × (lib.new_contract_registry_coordinator addr client w ≡ (ok coordinator, w₁))
      × (lib.service_manager coordinator w₁ ≡ (ok manager_addr, w₂))
      × (lib.new_contract_blockless_avs manager_addr client w₂ ≡ (ok b.service_manager, w'))
      × (b.eth_client ≡ client)

  pub new_avs_managers_bindings-Binds :
      (addr retriever : ℕ) (client : Client) (b : AvsManagersBindings Client Manager) (w w' : W)
      → new_avs_managers_bindings lib addr retriever client w ≡ (ok b, w')
      → Binds addr client b w w'
  unfolding new_avs_managers_bindings Binds
  new_avs_managers_bindings-Binds addr retriever client b w w' e =
      let c = lib.new_contract_registry_coordinator addr client w in
      elim (Result-cases c.0) [
        | inl (coordinator, p) ↦
            let a = lib.service_manager coordinator c.1 in
            elim (Result-cases a.0) [
              | inl (manager_addr, q) ↦ (
                coordinator,
                manager_addr,
                c.1,
                a.1,
                ground arith,
                ground arith,
                ground arith,
                ground arith,
              )
              | inr (_, bad) ↦ ground arith
            ]
        | inr (_, bad) ↦ ground arith
      ]

  -- A reader, a writer and a subscriber that are built hold the service manager of the coordinator
  -- they were built for, bound first, over the client they were given; the writer keeps the
  -- transaction manager.
  pub build-Binds :
      {Reader Writer TxMgr : Type 0} (build_reader : ℕ → ℕ → Client → Effect W Reader)
      (build_writer : ℕ → ℕ → Client → TxMgr → Effect W Writer) (tx_mgr : TxMgr)
      (addr retriever : ℕ) (client : Client) (w : W)
      → ((r : AvsReader Client Manager Reader) (w' : W)
          → build_avs_reader lib build_reader addr retriever client w ≡ (ok r, w')
          → (w₁ : W) × Binds addr client r.avs_service_bindings w w₁)
        × ((r : AvsWriter Client Manager Writer TxMgr) (w' : W)
            → build_avs_writer lib build_writer tx_mgr addr retriever client w ≡ (ok r, w')
            → (w₁ : W) × Binds addr client r.avs_contract_bindings w w₁ × (r.tx_mgr ≡ tx_mgr))
        × ((s : AvsSubscriber Client Manager) (w' : W)
            → build_avs_subscriber lib addr retriever client w ≡ (ok s, w')
            → Binds addr client s.avs_contract_bindings w w')
  unfolding build_avs_reader build_avs_writer build_avs_subscriber
  build-Binds build_reader build_writer tx_mgr addr retriever client w =
      let b = new_avs_managers_bindings lib addr retriever client w in
      elim (Result-cases b.0) [
        | inl (bindings, p) ↦
            let binds =
              new_avs_managers_bindings-Binds addr retriever client bindings w b.1 (ground arith) in
            (
              λ r w' e. (b.1, ground arith),
              λ r w' e. (b.1, ground arith, ground arith),
              λ s w' e. ground arith,
            )
        | inr (_, bad) ↦ (λ r w' e. ground arith, λ r w' e. ground arith, λ s w' e. ground arith)
      ]
