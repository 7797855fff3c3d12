-- ===== src/Node/Flags.antt =====
-- node/pkg/flags.go and node/pkg/cli_flags.go: the flags of the b7s node, and its configuration from
-- their values. The command line's parser is a parameter; what the b7s packages fix, the label of a head
-- node and the default concurrency, are too. A float64 is the text of its literal.
pub mod Laws
use blockless_avs_tools.Base.{ℕ, String, List, [], ◌∷◌, Bool, true, false}
use blockless_avs_tools.Node.P2p.{P2pConfig, Connectivity}

-- The default value of a flag, by the type of the flag.
pub data Value : Type 0 where
  text : String → Value
  uint int64 : ℕ → Value
  boolean : Bool → Value
  texts : List String → Value
  float64 : String → Value

pub record Flag : Type 0 where
  pub name : String
  pub value : Value
  pub required : Bool
  pub has_been_set : Bool
  pub aliases : List String

abbrev flag : String → Value → Bool → Bool → List String → Flag
flag name value required has_been_set aliases = record {
  name = name;
  value = value;
  required = required;
  has_been_set = has_been_set;
  aliases = aliases;
}

-- The flags of flags.go, in their order.
abbrev pub node_flags : String → ℕ → List Flag
node_flags head_node_label default_concurrency =
    flag "role" (text head_node_label) true true []
    ∷ flag "peer-db" (text "./node/peer-db") true true []
    ∷ flag "function-db" (text "./node/function-db") true true []
    ∷ flag "workspace" (text "./node/workspace") true true []
    ∷ flag "concurrency" (uint default_concurrency) true true []
    ∷ flag "attributes" (boolean false) true true []
    ∷ flag "private-key" (text "") true true []
    ∷ flag "address" (text "0.0.0.0") true true []
    ∷ flag "port" (uint 0) true true []
    ∷ flag "boot-nodes" (texts []) false false []
    ∷ flag "dialback-address" (text "") false false []
    ∷ flag "dialback-port" (uint 0) false false []
    ∷ flag "websocket-dialback-port" (uint 0) false false []
    ∷ flag "websocket" (boolean false) false false []
    ∷ flag "websocket-port" (uint 0) false false []
    ∷ flag "cpu-percentage-limit" (float64 "1.0") false true []
    ∷ flag "memory-limit" (int64 0) false true []
    ∷ []

-- `serverFlags`.
abbrev pub server_flags : ℕ → List Flag
server_flags default_concurrency =
    flag "log-level" (text "info") false false ("l" ∷ [])
    ∷ flag "role" (text "worker") false false ("r" ∷ [])
    ∷ flag "peer-db" (text "./node/peer-db") false false []
    ∷ flag "function-db" (text "./node/function-db") false false []
    ∷ flag "concurrency" (uint default_concurrency) false false ("c" ∷ [])
    ∷ flag "rest-api" (text "0") false false []
    ∷ flag "workspace" (text "./workspace") false false []
    ∷ flag "runtime-path" (text "") false false []
    ∷ flag "runtime-cli" (text "") false false []
    ∷ flag "attributes" (boolean false) false false []
    ∷ flag "topic" (texts []) false false []
    ∷ flag "private-key" (text "") false false []
    ∷ flag "address" (text "0.0.0.0") false false ("a" ∷ [])
    ∷ flag "port" (uint 0) false false ("p" ∷ [])
    ∷ flag "boot-nodes" (texts []) false false []
    ∷ flag "dialback-address" (text "0.0.0.0") false false []
    ∷ flag "dialback-port" (uint 0) false false []
    ∷ flag "websocket-dialback-port" (uint 0) false false []
    ∷ flag "websocket" (boolean false) false false ("w" ∷ [])
    ∷ flag "websocket-port" (uint 0) false false []
    ∷ flag "cpu-percentage-limit" (float64 "1.0") false false []
    ∷ flag "memory-limit" (int64 0) false false []
    ∷ flag "headless" (boolean true) false false []
    ∷ flag "devmode" (boolean false) false false ("d" ∷ [])
    ∷ []

-- What `cli.Context` gives for a flag's name, by the type at which it is read.
pub record Context : Type 0 where
  pub string : String → String
  pub uint_of : String → ℕ
  pub bool_of : String → Bool
  pub string_slice : String → List String

-- The fields of the b7s configuration that are set; `p2p` has those that `RunP2P` reads.
pub record Config : Type 0 where
  pub peer_db : String
  pub function_db : String
  pub p2p : P2pConfig

-- `ParseFlags`. The workspace is not set.
unfoldable pub parse_flags : Context → Config
parse_flags c =
    let connectivity : Connectivity = record {
      address = c.string "address";
      port = c.uint_of "port";
      private_key = c.string "private-key";
      dialback_address = c.string "dialback-address";
      dialback_port = c.uint_of "dialback-port";
      websocket_dialback_port = c.uint_of "websocket-dialback-port";
      websocket = c.bool_of "websocket";
      websocket_port = c.uint_of "websocket-port";
    } in
    let p2p : P2pConfig = record {
      role = c.string "role";
      workspace = "";
      boot_nodes = c.string_slice "boot-nodes";
      connectivity = connectivity;
      concurrency = c.uint_of "concurrency";
      load_attributes = c.bool_of "attributes";
    } in
    record { peer_db = c.string "peer-db"; function_db = c.string "function-db"; p2p = p2p }
