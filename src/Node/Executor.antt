-- ===== src/Node/Executor.antt =====
-- node/pkg/p2p_executor.go and node/pkg/db.go. The request's decoding, the node's execution of a
-- function and the aggregation of its results are parameters. The warning of a failed execution is
-- left out.
use blockless_avs_tools.Base.{
  ℕ, String, Bool, Option, none, some, GoError, wrap, ok, err, ◌||◌, if◌then◌else◌,
}
use blockless_avs_tools.Base.Effects.{Effect}
use blockless_avs_tools.Base.Calls.{Call, or_exit}

-- What `ExecuteFunction` returns: all of it, also with an error.
pub record Executed (Code Results Cluster : Type 0) : Type 0 where
  pub code : Code
  pub request_id : String
  pub results : Results
  pub cluster : Cluster
  pub failure : Option GoError

-- `is_roll_call_timeout` and `is_not_enough_nodes` are `errors.Is` at the two errors of b7s.
pub record ExecutorLib (W Request Code Results Aggregated Cluster : Type 0) : Type 0 where
  pub bind : Effect W Request
  pub execute_function : Request → W → Executed Code Results Cluster × W
  pub aggregate : Results → Aggregated
  pub is_roll_call_timeout : GoError → Bool
  pub is_not_enough_nodes : GoError → Bool
  pub error_text : GoError → String

-- `ExecuteResponse`.
pub record ExecuteResponse (Code Aggregated Cluster : Type 0) : Type 0 where
  pub code : Code
  pub request_id : String
  pub message : String
  pub results : Aggregated
  pub cluster : Cluster

-- A handler's answer: a JSON body with a status, or an HTTP error.
pub data Answer (A : Type 0) : Type 0 where
  json : ℕ → A → Answer A
  http_error : ℕ → GoError → Answer A

module _ {W Request Code Results Aggregated Cluster : Type 0}
    (lib : ExecutorLib W Request Code Results Aggregated Cluster) where
  -- The reason of a failure, which only two errors have.
  abbrev pub message_of : Option GoError → String
  message_of none = ""
  message_of (some e) =
      if lib.is_roll_call_timeout e || lib.is_not_enough_nodes e then lib.error_text e else ""

  -- The handler of `createExecutor`.
  unfoldable pub create_executor : W → Answer (ExecuteResponse Code Aggregated Cluster) × W
  create_executor w =
      let (bound, w₁) = lib.bind w in
      elim bound [
        | err e ↦ (http_error 400 (wrap "could not unpack request" e), w₁)
        | ok req ↦
            let (done, w₂) = lib.execute_function req w₁ in
            let res : ExecuteResponse Code Aggregated Cluster = record {
              code = done.code;
              request_id = done.request_id;
              message = message_of (done.failure);
              results = lib.aggregate done.results;
              cluster = done.cluster;
            } in
            (json 200 res, w₂)
      ]

-- `InitializeDB`.
unfoldable pub initialize_db : {W Db : Type 0} → (String → Effect W Db) → String → Call W Db
initialize_db open_db path = or_exit (open_db path) "Failed to open database"
