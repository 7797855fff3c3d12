-- ===== src/Aggregator/Rpc.antt =====
-- The endpoint that operators call: `ProcessSignedOracleResponse` and
-- `processOracleUpdateRequest` of aggregator/rpc_server.go. The answer of the Ethereum client to
-- `BlockNumber` is an argument.
pub mod Store
pub mod Outcomes
pub mod Running
use blockless_avs_tools.Base.{
  ℕ, ◌*◌, List, map, Result, ok, err, u8, u32, if◌then◌else◌, contains, lookup_or, insert, [],
  nat_eq, bytes_eq,
}
use blockless_avs_tools.Base.Effects.{◌>>=◌, ◌>>◌, lift, modify}
use blockless_avs_tools.Bindings.{Price, OracleRequest}
use blockless_avs_tools.Core.Digest.{AbiLib, get_price_digest}
use blockless_avs_tools.Aggregator.State.{
  quorum_threshold_numerator, quorum_numbers, task_challenge_window_block, block_time_seconds,
  task_response_digest_not_found_error_500, SignedOracleResponse, BlsService, Aggregator, Action,
  Responses, call_service,
}

-- The loop that fills `byteSlice`.
abbrev pub byte_slice : List ℕ → List ℕ
byte_slice ns = map u8 ns

-- The loop that gives every quorum the same threshold.
abbrev pub quorum_threshold_percentages : List ℕ → ℕ → List ℕ
quorum_threshold_percentages ns percentage = map (λ _. u8 percentage) ns

-- The error of the digest is replaced by the endpoint's own.
abbrev pub or_digest_error {ℓ} : {A : Type ℓ} → Result A → Result A
or_digest_error (ok a) = ok a
or_digest_error (err _) = err task_response_digest_not_found_error_500

-- The first section of `ProcessSignedOracleResponse` makes the inner map when it is missing.
abbrev pub open_task : ℕ → Responses → Responses
open_task i responses = if contains i responses then responses else insert i [] responses

module _ {S : Type 0} where
  -- `agg.prices[agg.oracleRequestIndex] = …`
  unfoldable pub store_price : Price → Aggregator S → Aggregator S
  store_price p agg = record agg { prices = insert agg.oracle_request_index p agg.prices }

  -- A request is stored under its digest only if there is none yet.
  unfoldable pub store_response : List ℕ → OracleRequest → Aggregator S → Aggregator S
  store_response digest req agg =
      let i = agg.oracle_request_index in
      let responses = open_task i agg.oracle_responses in
      let inner = lookup_or i responses [] in
      record agg {
        oracle_responses =
            if contains digest inner
            then responses
            else insert i (insert digest req inner) responses;
      }

-- The request that the aggregator builds for the contract.
unfoldable pub oracle_request : Price → ℕ → OracleRequest
oracle_request p current_block = record {
  symbol = p.symbol;
  reference_block_number = u32 current_block;
  quorum_numbers = byte_slice quorum_numbers;
  quorum_threshold_percentage = u8 quorum_threshold_numerator;
}

module _ {T Sig S : Type 0} (lib : AbiLib T) (service : BlsService Sig S) where
  unfoldable pub initialize_new_task : ℕ → Action S (Unit {0})
  initialize_new_task current_block = call_service λ agg.
      service.initialize_new_task agg.oracle_request_index (u32 current_block) quorum_numbers
        (quorum_threshold_percentages quorum_numbers quorum_threshold_numerator)
        (task_challenge_window_block * block_time_seconds) agg.bls_aggregation_service

  unfoldable pub process_new_signature : List ℕ → SignedOracleResponse Sig → Action S (Unit {0})
  process_new_signature digest resp = call_service λ agg.
      service.process_new_signature agg.oracle_request_index digest resp.bls_signature
        resp.operator_id agg.bls_aggregation_service

  unfoldable pub process_oracle_update_request :
      SignedOracleResponse Sig → Result ℕ → Action S OracleRequest
  unfolding store_price initialize_new_task oracle_request
  process_oracle_update_request resp block_number = do
    current_block ← lift block_number
    modify (store_price resp.price_response)
    initialize_new_task current_block
    lift (ok (oracle_request resp.price_response current_block))

  unfoldable pub process_signed_oracle_response :
      SignedOracleResponse Sig → Result ℕ → Action S (Unit {0})
  unfolding process_oracle_update_request store_response process_new_signature
  process_signed_oracle_response resp block_number = do
    digest ← lift (or_digest_error (get_price_digest lib resp.price_response))
    oracle_req ← process_oracle_update_request resp block_number
    modify (store_response digest oracle_req)
    process_new_signature digest resp
