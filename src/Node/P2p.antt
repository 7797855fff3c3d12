-- ===== src/Node/P2p.antt =====
-- node/pkg/p2p.go. The b7s node, its stores and the multiaddress parser are parameters, on a state
-- `W` of the machine. The logger and the stores' wrappers are left out.
pub mod Laws
use blockless_avs_tools.Base.{
  ℕ, String, List, [], ◌∷◌, Bool, Option, none, some, Result, ok, err, GoError, wrap, wrap_err,
  Outcome, returned, panicked, exited, ◌>>=◌, if◌then◌else◌, ◌==◌, string_eq,
}
use blockless_avs_tools.Base.Effects.{Effect}
use blockless_avs_tools.Base.Calls.{Call}

pub data Role : Type 0 where
  head_node worker_node : Role

-- The fields of the b7s configuration that are read here.
pub record Connectivity : Type 0 where
  pub address : String
  pub port : ℕ
  pub private_key : String
  pub dialback_address : String
  pub dialback_port : ℕ
  pub websocket_dialback_port : ℕ
  pub websocket : Bool
  pub websocket_port : ℕ

pub record P2pConfig : Type 0 where
  pub role : String
  pub workspace : String
  pub boot_nodes : List String
  pub connectivity : Connectivity
  pub concurrency : ℕ
  pub load_attributes : Bool

abbrev pub success : ℕ
success = 0

abbrev pub failure : ℕ
failure = 1

pub record P2pLib (W Addr Peer Host Node : Type 0) : Type 0 where
  pub abs : String → Result String
  pub peers : Call W (List Peer)  -- over a database that is not there it panics
  pub new_multiaddr : String → Result Addr
  pub new_host : Connectivity → List Addr → List Peer → Effect W Host
  pub new_node : Host → String → Role → ℕ → Bool → Effect W Node
  pub start_node : Node → W → W
  pub close_host : Host → W → W

-- `blockless.HeadNodeLabel`.
abbrev pub role_of : String → String → Role
role_of head_node_label role = if role == head_node_label then head_node else worker_node

module _ {W Addr Peer Host Node : Type 0} (lib : P2pLib W Addr Peer Host Node) where
  -- The message shows the inner `addr`, which is nil after an error, instead of the text.
  unfoldable pub get_boot_node_addresses : List String → Result (List Addr)
  get_boot_node_addresses [] = ok []
  get_boot_node_addresses (text ∷ addrs) = do
    addr ← wrap_err "could not parse multiaddress (addr: %!s(<nil>))" (lib.new_multiaddr text)
    out ← get_boot_node_addresses addrs
    ok (addr ∷ out)

  -- What happens once there is a host, which is closed when `RunP2P` returns. A node that starts
  -- runs in a goroutine.
  unfoldable pub run_on_host : String → String → P2pConfig → Host → W → Outcome ℕ × W
  run_on_host head_node_label workspace cfg host w =
      let (r, w') =
        lib.new_node host workspace (role_of head_node_label cfg.role) cfg.concurrency
          cfg.load_attributes w in
      elim r [
        | ok node ↦ (returned success, lib.close_host host (lib.start_node node w'))
        | err _ ↦ (returned failure, lib.close_host host w')
      ]

  -- What happens once the dial-back peers are known.
  unfoldable pub run_with_peers : String → String → P2pConfig → List Peer → W → Outcome ℕ × W
  run_with_peers head_node_label workspace cfg dial_back_peers w =
      elim (get_boot_node_addresses cfg.boot_nodes) [
        | err _ ↦ (returned failure, w)
        | ok boot_node_addrs ↦
            let (host, w') = lib.new_host cfg.connectivity boot_node_addrs dial_back_peers w in
            elim host [
              | err _ ↦ (returned failure, w')
              | ok h ↦ run_on_host head_node_label workspace cfg h w'
            ]
      ]

  unfoldable pub run_p2p : String → P2pConfig → W → Outcome ℕ × W
  run_p2p head_node_label cfg w = elim (lib.abs cfg.workspace) [
    | err _ ↦ (returned failure, w)
    | ok workspace ↦
        let (peers, w') = lib.peers w in
        elim peers [
          | panicked e ↦ (panicked e, w')
          | exited s ↦ (exited s, w')
          | returned r ↦ elim r [
            | err _ ↦ (returned failure, w')
            | ok dial_back_peers ↦ run_with_peers head_node_label workspace cfg dial_back_peers w'
          ]
        ]
  ]
