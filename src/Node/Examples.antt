-- ===== src/Node/Examples.antt =====
-- A concrete JSON and a concrete machine, and the theorems on the node at them.
use blockless_avs_tools.Base.{
  ℕ, ◌+◌, String, [], ◌∷◌, ◌++◌, some, ok, err, GoError, message, true, false, none, ◌≡◌, ◌⊎◌, refl,
  List, returned,
}
use blockless_avs_tools.Node.Api.{ResponseWriter, Json, post_oracle}
use blockless_avs_tools.Node.Api.Laws.{post_oracle_lem}
use blockless_avs_tools.Node.P2p.{
  P2pConfig, P2pLib, role_of, success, run_with_peers, get_boot_node_addresses, run_on_host,
  run_p2p,
}
use blockless_avs_tools.Node.P2p.Laws.{run_p2p-host_closed}

-- Every body asks for bitcoin; a response cannot be encoded.
abbrev json : Json
json = record {
  marshal_app_meta = λ name. ok name;
  marshal_api = λ path. ok path;
  decode_symbol = λ body. ok "bitcoin";
  encode_response = λ symbol now. err (message "broken pipe");
  error_text = λ e. "error";
}

post_oracle_lem_example :
    let (answer, requested) = post_oracle json true (123 ∷ []) 5 ("ether" ∷ []) in
    ((e : GoError) × (w : ResponseWriter) × (json.decode_symbol (123 ∷ []) ≡ err e)
      × (answer ≡ some w)
      × (w.status ≡ some 400)
      × (requested ≡ "ether" ∷ []))
    ⊎ ((symbol : String) × (w : ResponseWriter) × (json.decode_symbol (123 ∷ []) ≡ ok symbol)
        × (true ≡ true)
        × (answer ≡ some w)
        × (w.status ≡ some 200)
        × (w.content_type ≡ some "application/json")
        × (requested ≡ ("ether" ∷ []) ++ symbol ∷ []))
    ⊎ ((symbol : String) × (json.decode_symbol (123 ∷ []) ≡ ok symbol)
        × (true ≡ false)
        × (answer ≡ none)
        × (requested ≡ "ether" ∷ []))
post_oracle_lem_example = post_oracle_lem json true (123 ∷ []) 5 ("ether" ∷ [])

-- A machine that counts what is done to it.
abbrev pub machine : P2pLib ℕ String String ℕ ℕ
machine = record {
  abs = λ path. ok path;
  peers = λ w. (returned (ok []), w + 1);
  new_multiaddr = λ text. ok text;
  new_host = λ c addrs peers w. (ok 7, w + 1);
  new_node = λ host workspace role concurrency load w. (ok 8, w + 1);
  start_node = λ node w. w + 10;
  close_host = λ host w. w + 100;
}

abbrev pub cfg : P2pConfig
cfg = record {
  role = "worker";
  workspace = "workspace";
  boot_nodes = "/ip4/127.0.0.1" ∷ [];
  connectivity = record {
    address = "0.0.0.0";
    port = 9010;
    private_key = "key";
    dialback_address = "";
    dialback_port = 0;
    websocket_dialback_port = 0;
    websocket = false;
    websocket_port = 0;
  };
  concurrency = 10;
  load_attributes = false;
}

pub runs : run_p2p machine "head" cfg 0 ≡ (returned success, 113)
unfolding run_p2p run_with_peers run_on_host get_boot_node_addresses
runs = refl

run_p2p-host_closed_example :
    (workspace : String) × (peers : List String) × (addrs : List String) × (host : ℕ) × (node : ℕ)
    × (w₁ : ℕ) × (w₂ : ℕ) × (w₃ : ℕ) × (machine.abs cfg.workspace ≡ ok workspace)
    × (machine.peers 0 ≡ (returned (ok peers), w₁))
    × (get_boot_node_addresses machine cfg.boot_nodes ≡ ok addrs)
    × (machine.new_host cfg.connectivity addrs peers w₁ ≡ (ok host, w₂))
    × (machine.new_node host workspace
          (role_of "head" cfg.role)
          cfg.concurrency
          cfg.load_attributes
          w₂
        ≡ (ok node, w₃))
    × (113 ≡ machine.close_host host (machine.start_node node w₃))
run_p2p-host_closed_example = run_p2p-host_closed machine "head" cfg 0 113 runs
