-- ===== src/Cli/Run/Examples.antt =====
-- A run over databases that can be opened unless they have no path.
use blockless_avs_tools.Base.{
  ℕ, ◌+◌, ◌==◌, Bool, true, ◌++◌, ◌⊎◌, ◌≡◌, refl, if◌then◌else◌, string_eq, String, List, [], ◌∷◌,
  Option, none, some, Result, ok, err, message, returned, panicked,
}
use blockless_avs_tools.Node.P2p.{
  P2pLib, get_boot_node_addresses, run_on_host, run_with_peers, run_p2p,
}
use blockless_avs_tools.Node.Examples.{machine, cfg}
use blockless_avs_tools.Cli.{Event, interrupted, wake, run_avs}
use blockless_avs_tools.Cli.Laws.{Interrupted, NodeEnds, ServerFails}
use blockless_avs_tools.Cli.Run.{
  BlocklessConfig, Pebble, ended, nil_config, open_database, close_databases, boot, wait_and_close,
  run_avs_command,
}
use blockless_avs_tools.Cli.Run.Laws.{run_avs_command-ends_well}

-- The state counts what is done; `Close` of the nil pointer panics.
abbrev pebble : Pebble ℕ String
pebble = record {
  open_db = λ path w. if path == "" then (err (message "no path"), w) else (ok path, w + 1);
  close_db =
      λ db w. elim db [ some _ ↦ (returned (ok tt), w + 1000) | none ↦ (panicked nil_config, w) ];
}

abbrev node_over : Option String → Option String → P2pLib ℕ String String ℕ ℕ
node_over pdb fdb = record machine {
  peers = λ w. elim pdb [ some _ ↦ machine.peers w | none ↦ (panicked nil_config, w) ];
}

abbrev config : String → BlocklessConfig
config peer_db = record { peer_db = peer_db; function_db = "function-db"; p2p = cfg }

abbrev events : List Event
events = interrupted ∷ wake ∷ []

ran :
    run_avs_command pebble node_over "head" (some (config "peer-db")) events 0
    ≡ (ended (returned (ok tt)), 2115)
unfolding run_avs_command open_database close_databases boot wait_and_close run_p2p run_with_peers
    run_on_host get_boot_node_addresses run_avs
ran = refl

-- Over a peer database that could not be opened RunP2P panics; the function database is closed.
panics :
    run_avs_command pebble node_over "head" (some (config "")) events 0
    ≡ (ended (panicked nil_config), 1001)
unfolding run_avs_command open_database close_databases boot wait_and_close run_p2p run_with_peers
    run_on_host get_boot_node_addresses run_avs
panics = refl

run_avs_command-ends_well_example :
    (c : BlocklessConfig) × (pdb : String) × (fdb : String) × (w₁ : ℕ) × (w₂ : ℕ) × (running : Bool)
    × (w₃ : ℕ) × (a : Result (Unit {0})) × (b : Result (Unit {0})) × (w₄ : ℕ) × (before : List
        Event)
    × (after : List Event) × (some (config "peer-db") ≡ some c)
    × (pebble.open_db c.peer_db 0 ≡ (ok pdb, w₁))
    × (pebble.open_db c.function_db w₁ ≡ (ok fdb, w₂))
    × (boot pebble node_over "head" c (some pdb) (some fdb) w₂ ≡ (returned running, w₃))
    × (events ≡ before ++ (wake ∷ after))
    × (Interrupted before ⊎ ((running ≡ true) × NodeEnds before) ⊎ ServerFails before)
    × (pebble.close_db (some fdb) w₃ ≡ (returned a, w₄))
    × (pebble.close_db (some pdb) w₄ ≡ (returned b, 2115))
run_avs_command-ends_well_example =
    run_avs_command-ends_well pebble node_over "head" (some (config "peer-db")) events 0
      (λ w. (nil_config, refl)) ran
