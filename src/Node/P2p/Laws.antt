-- ===== src/Node/P2p/Laws.antt =====
-- Which boot nodes are accepted, and what a successful start of the P2P node leaves behind.
use blockless_avs_tools.Base.{
  String, List, [], ◌∷◌, map, ok, ◌≡◌, ◌↔◌, inl, inr, arith, refl, ap, Result-cases, returned,
}
use blockless_avs_tools.Node.P2p.{
  P2pConfig, P2pLib, role_of, success, get_boot_node_addresses, run_on_host, run_with_peers,
  run_p2p,
}
use blockless_avs_tools.Base.Calls.{Outcome-cases}

module _ {W Addr Peer Host Node : Type 0} (lib : P2pLib W Addr Peer Host Node) where
  -- The addresses are those that the texts parse to, one by one and in order; there are none as soon
  -- as one text does not parse.
  pub get_boot_node_addresses_iff :
      (texts : List String) (out : List Addr)
      → (get_boot_node_addresses lib texts ≡ ok out) ↔ (map lib.new_multiaddr texts ≡ map ok out)
  unfolding get_boot_node_addresses
  get_boot_node_addresses_iff [] [] = (λ h. refl, λ h. refl)
  get_boot_node_addresses_iff [] (a ∷ out) = (λ h. cc, λ h. cc)
  get_boot_node_addresses_iff (t ∷ texts) [] = (λ h. ground arith, λ h. cc)
  get_boot_node_addresses_iff (t ∷ texts) (a ∷ out) =
      let later = get_boot_node_addresses_iff texts out in
      elim (Result-cases (lib.new_multiaddr t)) [
        | inr (_, p) ↦ (λ h. ground arith, λ h. ground arith)
        | inl (addr, p) ↦ elim (Result-cases (get_boot_node_addresses lib texts)) [
          | inr (_, q) ↦ (λ h. ground arith, λ h. ground (arith, later.1))
          | inl (rest, q) ↦ (λ h. ground (arith, later.0), λ h. ground (arith, later.1))
        ]
      ]

  -- A host that `RunP2P` made is closed when it returns, after the node that it was made for.
  run_on_host-eq-success :
      (label workspace : String) (cfg : P2pConfig) (host : Host) (w w' : W)
      → run_on_host lib label workspace cfg host w ≡ (returned success, w')
      → (node : Node) × (w₁ : W) × (lib.new_node host workspace
            (role_of label cfg.role)
            cfg.concurrency
            cfg.load_attributes
            w
          ≡ (ok node, w₁))
        × (w' ≡ lib.close_host host (lib.start_node node w₁))
  unfolding run_on_host
  run_on_host-eq-success label workspace cfg host w w' h =
      let started =
        lib.new_node host workspace (role_of label cfg.role) cfg.concurrency cfg.load_attributes
          w in
      elim (Result-cases started.0) [
        | inr (_, t) ↦ absurd (ground arith)
        | inl (node, t) ↦ (node, started.1, ap (λ r. (r, started.1)) t, ground arith)
      ]

  -- A start that reports success read the dial-back peers, made a host for them and the boot nodes,
  -- made a node on this host, started this node, and then closed the very host that it runs on: this is
  -- the last thing done before the return.
  pub run_p2p-host_closed :
      (label : String) (cfg : P2pConfig) (w w' : W)
      → run_p2p lib label cfg w ≡ (returned success, w')
      → (workspace : String) × (peers : List Peer) × (addrs : List Addr) × (host : Host)
        × (node : Node) × (w₁ : W) × (w₂ : W) × (w₃ : W) × (lib.abs cfg.workspace ≡ ok workspace)
        × (lib.peers w ≡ (returned (ok peers), w₁))
        × (get_boot_node_addresses lib cfg.boot_nodes ≡ ok addrs)
        × (lib.new_host cfg.connectivity addrs peers w₁ ≡ (ok host, w₂))
        × (lib.new_node host workspace
              (role_of label cfg.role)
              cfg.concurrency
              cfg.load_attributes
              w₂
            ≡ (ok node, w₃))
        × (w' ≡ lib.close_host host (lib.start_node node w₃))
  unfolding run_p2p run_with_peers
  run_p2p-host_closed label cfg w w' h = elim (Result-cases (lib.abs cfg.workspace)) [
    | inr (_, p) ↦ absurd (ground arith)
    | inl (workspace, p) ↦ elim (Outcome-cases (lib.peers w).0) [
      | inr (inl (_, q)) ↦ absurd (ground arith)
      | inr (inr (inl (_, q))) ↦ absurd (ground arith)
      | inr (inr (inr (_, q))) ↦ absurd (ground arith)
      | inl (peers, q) ↦ elim (Result-cases (get_boot_node_addresses lib cfg.boot_nodes)) [
        | inr (_, r) ↦ absurd (ground arith)
        | inl (addrs, r) ↦
            let w₁ = (lib.peers w).1 in
            let made = lib.new_host cfg.connectivity addrs peers w₁ in
            elim (Result-cases made.0) [
              | inr (_, s) ↦ absurd (ground arith)
              | inl (host, s) ↦
                  let (node, w₃, new, closed) =
                    run_on_host-eq-success label workspace cfg host made.1 w' (ground arith) in
                  (
                    workspace,
                    peers,
                    addrs,
                    host,
                    node,
                    w₁,
                    made.1,
                    w₃,
                    p,
                    ap (λ o. (o, w₁)) q,
                    r,
                    ap (λ o. (o, made.1)) s,
                    new,
                    closed,
                  )
            ]
      ]
    ]
  ]
