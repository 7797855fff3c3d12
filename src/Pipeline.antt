-- ===== src/Pipeline.antt =====
-- From a request to the transaction: operator/operator.go, aggregator/rpc_server.go and
-- aggregator/aggregator.go together.
pub mod Stored
mod Examples
use blockless_avs_tools.Base.{
  ℕ, String, List, none, Result, ok, returned, Outcome, ◌≡◌, refl, arith, nat_eq, bytes_eq,
  >>=-eq-ok, ap, sym, ◌∙◌,
}
use blockless_avs_tools.Core.Digest.{AbiLib, get_price_digest}
use blockless_avs_tools.Chainio.Writer.{OracleTx, send_aggregated_oracle_response}
use blockless_avs_tools.Aggregator.State.{SignedOracleResponse, BlsService, Aggregator, response_at}
use blockless_avs_tools.Aggregator.Rpc.{process_signed_oracle_response, oracle_request}
use blockless_avs_tools.Aggregator.Send.{
  BlsAggregationServiceResponse, read_task, non_signer_stakes_and_signature,
  send_aggregated_oracle_response_to_contract,
}
use blockless_avs_tools.Aggregator.Send.Laws.{read_task-accepted}
use blockless_avs_tools.Operator.Coingecko.{Float64, Http}
use blockless_avs_tools.Operator.Oracle.{process_oracle_update_request, sign_oracle_response}
use blockless_avs_tools.Operator.Oracle.Laws.{
  process_oracle_update_request-ok, sign_oracle_response-ok,
}
use blockless_avs_tools.Operator.Start.{respond}

module _ {T F Resp Sig : Type 0} (lib : AbiLib T) (float : Float64 F) (sign_message : List ℕ → Sig)
    (operator_id : List ℕ) where
  -- What an operator responds to a request has the request's symbol and a signature over the digest
  -- of its own price.
  respond-symbol :
      (symbol : String) (time : Result ℕ) (http : Http F Resp) (resp : SignedOracleResponse Sig)
      → respond lib float sign_message operator_id symbol time http ≡ ok resp
      → (resp.price_response.symbol ≡ symbol)
        × ((d : List ℕ) × (get_price_digest lib resp.price_response ≡ ok d)
            × (resp.bls_signature ≡ sign_message d))
  unfolding respond
  respond-symbol symbol time http resp h =
      let (price, made, signed) =
        >>=-eq-ok (process_oracle_update_request float http time symbol) _ h in
      let (_, _, _, _, named, _, _) =
        process_oracle_update_request-ok float http symbol time price made in
      let (d, digest, sig, same, _) =
        sign_oracle_response-ok lib sign_message operator_id price resp signed in
      (ap (λ p. p.symbol) same ∙ named, (d, digest, sig))

  -- A response that an operator made for a symbol, that the aggregator accepted with no request
  -- stored under its digest before, and whose task the aggregation service then completes, with no
  -- other response in between, is sent to the contract as the price that was signed, for a request
  -- of this symbol at the block that was read.
  pub respond-sent :
      {S Fp W Opts Tx Receipt : Type 0} (service : BlsService Sig S) (big_int : Fp → ℕ)
      (tx_mgr : OracleTx W Opts Tx Receipt) (symbol : String) (time : Result ℕ) (http : Http F Resp)
      (resp : SignedOracleResponse Sig) (block : ℕ) (agg : Aggregator S) (d : List ℕ)
      (answer : BlsAggregationServiceResponse Fp) (w : W)
      → respond lib float sign_message operator_id symbol time http ≡ ok resp
      → get_price_digest lib resp.price_response ≡ ok d
      → response_at agg.oracle_request_index d agg.oracle_responses ≡ none
      → (process_signed_oracle_response lib service resp (ok block) agg).0 ≡ ok tt
      → answer.service_err ≡ none
      → answer.task_index ≡ agg.oracle_request_index
      → answer.task_response_digest ≡ d
      → let agg' = (process_signed_oracle_response lib service resp (ok block) agg).1 in
        let request = oracle_request resp.price_response block in
        (send_aggregated_oracle_response_to_contract big_int tx_mgr answer agg' w ≡ (
          returned tt,
          (send_aggregated_oracle_response tx_mgr request resp.price_response
              (non_signer_stakes_and_signature big_int answer)
              w).1,
        ))
        × (request.symbol ≡ symbol)
        × (resp.price_response.symbol ≡ symbol)
        × (resp.bls_signature ≡ sign_message d)
  unfolding send_aggregated_oracle_response_to_contract oracle_request read_task
  respond-sent service big_int tx_mgr symbol time http resp block agg d answer w made digest first
        taken fine index digest_of =
      let (named, (d', digest', sig)) = respond-symbol symbol time http resp made in
      let read = read_task-accepted lib service resp block agg digest taken in
      (ground (arith, read), named, named, ground arith)
