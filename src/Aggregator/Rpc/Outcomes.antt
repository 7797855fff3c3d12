-- ===== src/Aggregator/Rpc/Outcomes.antt =====
-- How `ProcessSignedOracleResponse` ends, and what each ending leaves in the maps.
use blockless_avs_tools.Base.{ℕ, List, Result, ok, err, GoError, ◌≡◌, arith, insert, nat_eq}
use blockless_avs_tools.Core.Digest.{AbiLib, get_price_digest}
use blockless_avs_tools.Aggregator.State.{
  SignedOracleResponse, BlsService, Aggregator, task_response_digest_not_found_error_500,
}
use blockless_avs_tools.Aggregator.Rpc.{
  process_signed_oracle_response, store_price, store_response, oracle_request, initialize_new_task,
  process_new_signature,
}

module _ {T Sig S : Type 0} (lib : AbiLib T) (service : BlsService Sig S)
    (resp : SignedOracleResponse Sig) (agg : Aggregator S) where
  -- A response whose price cannot be encoded gets the endpoint's own error and changes nothing,
  -- whatever the Ethereum client would answer.
  pub process_signed_oracle_response-digest_error :
      {e : GoError} (block_number : Result ℕ)
      → get_price_digest lib resp.price_response ≡ err e
      → process_signed_oracle_response lib service resp block_number agg
        ≡ (err task_response_digest_not_found_error_500, agg)
  unfolding process_signed_oracle_response
  process_signed_oracle_response-digest_error b h = ground arith

  -- When the block number cannot be read, the client's error comes back and nothing changes.
  pub process_signed_oracle_response-block_error :
      {e : GoError} {d : List ℕ}
      → get_price_digest lib resp.price_response ≡ ok d
      → process_signed_oracle_response lib service resp (err e) agg ≡ (err e, agg)
  unfolding process_signed_oracle_response
  process_signed_oracle_response-block_error h = ground arith

  -- When the service refuses the task, its error comes back and no request is stored, but the
  -- refused response's price has replaced the price of the task.
  pub process_signed_oracle_response-refused :
      {e : GoError} {d : List ℕ} {agg' : Aggregator S} (block : ℕ)
      → get_price_digest lib resp.price_response ≡ ok d
      → initialize_new_task lib service block (store_price resp.price_response agg) ≡ (err e, agg')
      → let (r, after) = process_signed_oracle_response lib service resp (ok block) agg in
        (r ≡ err e)
        × (after.prices ≡ insert agg.oracle_request_index resp.price_response agg.prices)
        × (after.oracle_responses ≡ agg.oracle_responses)
        × (after.oracle_request_index ≡ agg.oracle_request_index)
  unfolding process_signed_oracle_response
  process_signed_oracle_response-refused block h i = ground arith

  -- When the service takes the task, the request is stored unless its digest has one already, and
  -- the result is what the service says to the signature.
  pub process_signed_oracle_response-taken :
      {d : List ℕ} {agg' : Aggregator S} (block : ℕ)
      → get_price_digest lib resp.price_response ≡ ok d
      → initialize_new_task lib service block (store_price resp.price_response agg) ≡ (ok tt, agg')
      → process_signed_oracle_response lib service resp (ok block) agg
        ≡ process_new_signature lib service d resp
            (store_response d (oracle_request resp.price_response block) agg')
  unfolding process_signed_oracle_response
  process_signed_oracle_response-taken block h i = ground arith
