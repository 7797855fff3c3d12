-- ===== src/Cli/Run.antt =====
-- `RunAVS` of cli/avs.go from its start: the databases that it opens, the P2P node over them, the
-- wait of Cli.run_avs, and the deferred calls. `pebble` is a parameter: a database that could not be
-- opened is the nil pointer, on which `Close` is called too. The logger is a ZeroLogger, as
-- cli/main.go makes it, and the operator's goroutine is left out.
pub mod Laws
mod Examples
use blockless_avs_tools.Base.{
  ℕ, String, List, Bool, ◌==◌, nat_eq, Option, none, some, Result, ok, err, GoError, message,
  Outcome, returned, panicked, exited,
}
use blockless_avs_tools.Base.Effects.{Effect}
use blockless_avs_tools.Node.P2p.{P2pConfig, P2pLib, success, run_p2p}
use blockless_avs_tools.Cli.{Event, started, run_avs}
use blockless_avs_tools.Cli

-- The fields of the b7s configuration that are read here.
pub record BlocklessConfig : Type 0 where
  pub peer_db : String
  pub function_db : String
  pub p2p : P2pConfig

-- `pebble.Open` and `Close`.
pub record Pebble (W Db : Type 0) : Type 0 where
  pub open_db : String → Effect W Db
  pub close_db : Option Db → W → Outcome (Result (Unit {0})) × W

-- The process after some events: it waits, a goroutine brought it down, or `RunAVS` ended.
pub data Process : Type 0 where
  waiting crashed : Process
  ended : Outcome (Result (Unit {0})) → Process

abbrev pub nil_config : GoError
nil_config = message "runtime error: invalid memory address or nil pointer dereference"

-- `RunAVS` has no result of `Close` to look at, but a panic of it goes on after the next deferred
-- call.
abbrev pub and_panic :
    Outcome (Result (Unit {0})) → Outcome (Result (Unit {0})) → Outcome (Result (Unit {0}))
and_panic (returned _) (returned _) = returned (ok tt)
and_panic first (panicked e) = panicked e
and_panic first (exited s) = exited s
and_panic (panicked e) (returned _) = panicked e
and_panic (exited s) (returned _) = exited s

module _ {W Db Addr Peer Host Node : Type 0} (pebble : Pebble W Db)
    -- the stores of the node over the peer database and the function database
    (p2p_lib : Option Db → Option Db → P2pLib W Addr Peer Host Node)
    (head_node_label : String) where
  -- An error is only logged.
  unfoldable pub open_database : String → W → Option Db × W
  open_database path w =
      let (db, w') = pebble.open_db path w in elim db [ ok db ↦ (some db, w') | err _ ↦ (none, w') ]

  -- The deferred calls, the last one first.
  unfoldable pub close_databases : Option Db → Option Db → W → Outcome (Result (Unit {0})) × W
  close_databases pdb fdb w =
      let (function_closed, w₁) = pebble.close_db fdb w in
      let (peer_closed, w₂) = pebble.close_db pdb w₁ in (and_panic function_closed peer_closed, w₂)

  -- The node over the databases, and whether it runs.
  unfoldable pub boot : BlocklessConfig → Option Db → Option Db → W → Outcome Bool × W
  boot config pdb fdb w =
      let (code, w') = run_p2p (p2p_lib pdb fdb) head_node_label config.p2p w in
      elim code [
        | returned n ↦ (returned (n == success), w')
        | panicked e ↦ (panicked e, w')
        | exited s ↦ (exited s, w')
      ]

  -- The wait, and the deferred calls when it ends.
  unfoldable pub wait_and_close : List Event → Option Db → Option Db → Bool → W → Process × W
  wait_and_close events pdb fdb node_running w = elim (run_avs events (started node_running)) [
    | Cli.waiting ↦ (waiting, w)
    | Cli.crashed ↦ (crashed, w)
    | Cli.returned ↦ let (outcome, w') = close_databases pdb fdb w in (ended outcome, w')
  ]

  -- A panic of `RunP2P` goes on after the deferred calls; an exit runs none of them.
  unfoldable pub run_avs_command : Option BlocklessConfig → List Event → W → Process × W
  run_avs_command none events w = (ended (panicked nil_config), w)
  run_avs_command (some config) events w =
      let (pdb, w₁) = open_database config.peer_db w in
      let (fdb, w₂) = open_database config.function_db w₁ in
      let (node_running, w₃) = boot config pdb fdb w₂ in
      elim node_running [
        | returned running ↦ wait_and_close events pdb fdb running w₃
        | panicked e ↦
            let (outcome, w₄) = close_databases pdb fdb w₃ in
            (ended (and_panic (panicked e) outcome), w₄)
        | exited s ↦ (ended (exited s), w₃)
      ]
