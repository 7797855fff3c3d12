-- ===== src/Aggregator/State.antt =====
-- The aggregator's constants, its state, and a method call on it: state and Go's `error`.
use blockless_avs_tools.Base.{
  ℕ, ◌*◌, List, [], ◌∷◌, Option, GoError, message, Dict, lookup, lookup_or, nat_eq, bytes_eq,
}
use blockless_avs_tools.Base.Effects.{Effect, from_error}
use blockless_avs_tools.Bindings.{Price, OracleRequest}

-- aggregator/types/types.go.
abbrev pub quorum_threshold_numerator : ℕ
quorum_threshold_numerator = 100

abbrev pub quorum_numbers : List ℕ
quorum_numbers = 0 ∷ []

-- The constants of aggregator.go; a `time.Duration` is in nanoseconds.
abbrev pub task_challenge_window_block : ℕ
task_challenge_window_block = 100

abbrev pub block_time_seconds : ℕ
block_time_seconds = 12 * 1_000_000_000

abbrev pub task_response_digest_not_found_error_500 : GoError
task_response_digest_not_found_error_500 = message "500. Failed to get task response digest"

-- `SignedOracleResponse` of rpc_server.go.
pub record SignedOracleResponse (Sig : Type 0) : Type 0 where
  pub price_response : Price
  pub bls_signature : Sig
  pub operator_id : List ℕ

-- What the program calls of the SDK's `BlsAggregationService`, on the service's own state. The
-- arguments are the task's index, its block, its quorums, their thresholds and the time to expiry;
-- then the task's index, the digest, the signature and the operator.
pub record BlsService (Sig S : Type 0) : Type 0 where
  pub initialize_new_task : ℕ → ℕ → List ℕ → List ℕ → ℕ → S → Option GoError × S
  pub process_new_signature : ℕ → List ℕ → Sig → List ℕ → S → Option GoError × S

-- `oracleResponses`: the request of each digest, for each task.
abbrev pub Responses : Type 0
Responses = Dict ℕ (Dict (List ℕ) OracleRequest)

-- `oracleResponses[i][digest]`, a read through a nil map where the task has none.
abbrev pub response_at : ℕ → List ℕ → Responses → Option OracleRequest
response_at i digest responses = lookup digest (lookup_or i responses [])

-- The fields of `Aggregator` that change, and the state of its aggregation service.
pub record Aggregator (S : Type 0) : Type 0 where
  pub oracle_request_index : ℕ
  pub prices : Dict ℕ Price
  pub oracle_responses : Responses
  pub bls_aggregation_service : S

-- The maps and the index as `NewAggregator` makes them.
unfoldable pub new_aggregator : {S : Type 0} → S → Aggregator S
new_aggregator s = record {
  oracle_request_index = 0;
  prices = [];
  oracle_responses = [];
  bls_aggregation_service = s;
}

-- A method call of the aggregator.
abbrev pub Action : Type 0 → Type 0 → Type 0
Action S A = Effect (Aggregator S) A

-- A call of the aggregation service.
abbrev pub call_service : {S : Type 0} → (Aggregator S → Option GoError × S) → Action S (Unit {0})
call_service f agg =
    let (e, s) = f agg in (from_error e, record agg { bls_aggregation_service = s })
