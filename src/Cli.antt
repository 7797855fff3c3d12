-- ===== src/Cli.antt =====
-- The end of `RunAVS` of cli/avs.go, with the goroutine that `RunP2P` of node/pkg/p2p.go leaves
-- running: the P2P node and the HTTP server end on their own and close the channels `done` and
-- `failed`, and a `select` waits for one of these or for an interrupt. The operator's goroutine
-- touches no channel.
pub mod Laws
pub mod Commands
pub mod Server
pub mod Run
mod Examples
use blockless_avs_tools.Base.{
  ℕ, List, [], ◌∷◌, Bool, true, false, ◌||◌, Option, none, some, GoError, message, if◌then◌else◌,
}

-- What can happen, in the order in which it does. Each goroutine ends at most once: a later end is
-- none. `server_closed` is `http.ErrServerClosed`. At `wake` the `select` is run.
pub data Event : Type 0 where
  interrupted wake server_closed : Event
  node_ended : Option GoError → Event
  server_ended : GoError → Event

pub record Channels : Type 0 where
  pub sig : Bool
  pub done : Bool
  pub failed : Bool
  pub node_running : Bool
  pub server_running : Bool

-- `RunP2P` started the node or not; its result is not read.
abbrev pub started : Bool → Channels
started node_running = record {
  sig = false;
  done = false;
  failed = false;
  node_running = node_running;
  server_running = true;
}

pub data Status : Type 0 where
  waiting returned crashed : Status

-- `close(failed)` of a closed channel panics; `rest` is what happens otherwise.
abbrev pub close_failed : Channels → Status → Status
close_failed c rest = if c.failed then crashed else rest

unfoldable pub run_avs : List Event → Channels → Status
run_avs [] c = waiting
run_avs (interrupted ∷ events) c = run_avs events (record c { sig = true })
run_avs (wake ∷ events) c =
    let rest = run_avs events c in if c.sig || (c.done || c.failed) then returned else rest
run_avs (server_closed ∷ events) c = run_avs events (record c { server_running = false })
run_avs (node_ended none ∷ events) c =
    run_avs events (record c { done = c.done || c.node_running; node_running = false })
run_avs (node_ended (some e) ∷ events) c =
    let rest = run_avs events (record c { failed = true; node_running = false }) in
    let later = run_avs events c in if c.node_running then close_failed c rest else later
run_avs (server_ended e ∷ events) c =
    let rest = run_avs events (record c { failed = true; server_running = false }) in
    let later = run_avs events c in if c.server_running then close_failed c rest else later
