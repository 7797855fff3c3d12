-- ===== src/Pipeline/Stored.antt =====
-- From a request to the price in the contract: the operator, the aggregator, the writer, the
-- generated binding and the contract together.
use blockless_avs_tools.Base.{
  ℕ, String, List, none, Result, ok, returned, ◌≡◌, ap, arith, ==_refl, string_eq, sym, ◌∙◌, subst,
}
use blockless_avs_tools.Core.Digest.{AbiLib, get_price_digest}
use blockless_avs_tools.Aggregator.State.{SignedOracleResponse, BlsService, Aggregator, response_at}
use blockless_avs_tools.Aggregator.Rpc.{process_signed_oracle_response, oracle_request}
use blockless_avs_tools.Aggregator.Send.{
  BlsAggregationServiceResponse, non_signer_stakes_and_signature,
  send_aggregated_oracle_response_to_contract,
}
use blockless_avs_tools.Bindings.Values.{Bind}
use blockless_avs_tools.Bindings.Handles.{handle_of}
use blockless_avs_tools.Bindings.Abi.{ConvertsOwnTypes}
use blockless_avs_tools.Bindings.Avs.Reads
use blockless_avs_tools.Bindings.Avs.Writes
use blockless_avs_tools.Bindings.Avs.Chain.{go_price}
use blockless_avs_tools.Chainio.Writer.{send_aggregated_oracle_response}
use blockless_avs_tools.Chainio.Writer.Deployed.{
  TxManager, oracle_tx, IsNode, send_aggregated_oracle_response-reads,
}
use blockless_avs_tools.Contract
use blockless_avs_tools.Contract.{OnchainPrice, Storage, OracleUpdate, Checker, done}
use blockless_avs_tools.Operator.Coingecko.{Float64, Http}
use blockless_avs_tools.Operator.Start.{respond}
use blockless_avs_tools.Pipeline.{respond-sent}

module _ {W Bound CallOpts TransactOpts Transaction Receipt : Type 0}
    (bind : Bind W Bound CallOpts TransactOpts Transaction)
    (tx_mgr : TxManager W TransactOpts Transaction Receipt) (contract : Bound) (latest : CallOpts)
    (checker : Checker) (node : IsNode bind tx_mgr contract latest checker)
    (own : ConvertsOwnTypes bind.convert_type) where
  -- A response that an operator made for a symbol, that the aggregator accepted with no request
  -- stored under its digest before, and whose task the aggregation service then completes, with no
  -- other response in between, ends up in the contract: if the transaction can be signed, Send
  -- returns its receipt and the contract accepts the price, Price() of the symbol then returns the
  -- price that was signed.
  pub respond-stored :
      {T F Resp Sig S Fp : Type 0} (lib : AbiLib T) (float : Float64 F)
      (sign_message : List ℕ → Sig) (operator_id : List ℕ) (service : BlsService Sig S)
      (big_int : Fp → ℕ) (symbol : String) (time : Result ℕ) (http : Http F Resp)
      (resp : SignedOracleResponse Sig) (block : ℕ) (agg : Aggregator S) (d : List ℕ)
      (answer : BlsAggregationServiceResponse Fp) (w : W) (p : OnchainPrice) {opts : TransactOpts}
      {w₁ : W} {tx : Transaction} {w₂ : W} {receipt : Receipt} {w₃ : W} {r : Storage × OracleUpdate}
      → respond lib float sign_message operator_id symbol time http ≡ ok resp
      → get_price_digest lib resp.price_response ≡ ok d
      → response_at agg.oracle_request_index d agg.oracle_responses ≡ none
      → (process_signed_oracle_response lib service resp (ok block) agg).0 ≡ ok tt
      → answer.service_err ≡ none
      → answer.task_index ≡ agg.oracle_request_index
      → answer.task_response_digest ≡ d
      → resp.price_response ≡ go_price p
      → tx_mgr.get_no_send_tx_opts w ≡ (ok opts, w₁)
      → Writes.update_oracle_price bind
          (handle_of contract).transactor
          opts
          (oracle_request (go_price p) block)
          (go_price p)
          (non_signer_stakes_and_signature big_int answer)
          w₁
        ≡ (ok tx, w₂)
      → tx_mgr.send tx w₂ ≡ (ok receipt, w₃)
      → Contract.update_oracle_price checker
          (node.env w)
          (oracle_request (go_price p) block)
          p
          (non_signer_stakes_and_signature big_int answer)
          (node.storage w)
        ≡ done r
      → let agg' = (process_signed_oracle_response lib service resp (ok block) agg).1 in
        let w' =
          (send_aggregated_oracle_response_to_contract big_int
            (oracle_tx bind tx_mgr contract)
            answer
            agg'
            w).1 in
        Reads.price bind (handle_of contract).caller latest symbol w'
        ≡ (returned (ok resp.price_response), w')
  respond-stored lib float sign_message operator_id service big_int symbol time http resp block agg
        d answer w p made digest first taken fine index digest_of same opened signed delivered
        accepted =
      let writer = oracle_tx bind tx_mgr contract in
      let stakes = non_signer_stakes_and_signature big_int answer in
      let (sent, _, named, _) =
        respond-sent lib float sign_message operator_id service big_int writer symbol time http resp
          block agg d answer w made digest first taken fine index digest_of in
      let end =
        (send_aggregated_oracle_response writer (oracle_request (go_price p) block) (go_price p)
          stakes w).1 in
      let reads = Reads.price bind (handle_of contract).caller latest in
      let stored : reads p.symbol end ≡ (returned (ok (go_price p)), end) =
        let read =
          send_aggregated_oracle_response-reads bind tx_mgr contract node own
            (oracle_request (go_price p) block) p stakes w p.symbol opened signed delivered
            accepted in
        ground (arith, read, ==_refl p.symbol) in
      let symbol_of : p.symbol ≡ symbol = ap (λ q. q.symbol) (sym same) ∙ named in
      let sent_to =
        ap (λ x. x.1) sent
        ∙ ap (λ q. (send_aggregated_oracle_response writer (oracle_request q block) q stakes w).1)
            same in
      let as_signed = stored ∙ ap (λ q. (returned (ok q), end)) (sym same) in
      subst (λ v. reads symbol v ≡ (returned (ok resp.price_response), v)) (sym sent_to)
        (subst (λ name. reads name end ≡ (returned (ok resp.price_response), end)) symbol_of
          as_signed)
