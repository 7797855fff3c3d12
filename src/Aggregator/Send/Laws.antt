-- ===== src/Aggregator/Send/Laws.antt =====
-- What the aggregator reads for the contract after calls of its endpoint.
use blockless_avs_tools.Base.{
  ℕ, List, ok, ◌≡◌, ◌≢◌, refl, arith, nat_eq, bytes_eq, lookup-insert_self, ap, sym, ◌∙◌,
}
use blockless_avs_tools.Core.Digest.{AbiLib, get_price_digest}
use blockless_avs_tools.Aggregator.State.{SignedOracleResponse, BlsService, Aggregator, response_at}
use blockless_avs_tools.Aggregator.Rpc.{
  process_signed_oracle_response, oracle_request, store_price, initialize_new_task,
}
use blockless_avs_tools.Aggregator.Rpc.Store.{first_of_two, store_response_has}
use blockless_avs_tools.Aggregator.Send.{read_task}

module _ {T Sig S : Type 0} (lib : AbiLib T) (service : BlsService Sig S)
    (resp : SignedOracleResponse Sig) (block : ℕ) (agg : Aggregator S) where
  -- The price that is read for the task is that of the response processed last.
  last_price :
      {d : List ℕ} (digest : List ℕ)
      → get_price_digest lib resp.price_response ≡ ok d
      → let agg' = (process_signed_oracle_response lib service resp (ok block) agg).1 in
        (read_task agg' agg.oracle_request_index digest).1 ≡ resp.price_response
  unfolding process_signed_oracle_response read_task
  last_price digest h =
      ground (arith, lookup-insert_self agg.oracle_request_index resp.price_response agg.prices)

  -- Once a response has been processed, accepted or not, the price that goes with any other digest
  -- of the task is that response's, whose digest is another: the contract would check the
  -- aggregated signature against the wrong message.
  pub read_task-wrong_price :
      {d : List ℕ} (digest : List ℕ)
      → get_price_digest lib resp.price_response ≡ ok d
      → digest ≢ d
      → let agg' = (process_signed_oracle_response lib service resp (ok block) agg).1 in
        let (_, price) = read_task agg' agg.oracle_request_index digest in
        (price ≡ resp.price_response) × (get_price_digest lib price ≢ ok digest)
  read_task-wrong_price digest h ne =
      let e = last_price digest h in
      (e, λ f. let g = sym (ap (get_price_digest lib) e ∙ h) ∙ f in ne (cc))

  -- Right after an accepted response, and before any other, its digest's task reads as the request
  -- stored for it, the first with that digest, and the price that was signed.
  pub read_task-accepted :
      {d : List ℕ}
      → get_price_digest lib resp.price_response ≡ ok d
      → (process_signed_oracle_response lib service resp (ok block) agg).0 ≡ ok tt
      → let agg' = (process_signed_oracle_response lib service resp (ok block) agg).1 in
        read_task agg' agg.oracle_request_index d ≡ (
          first_of_two
              (response_at agg.oracle_request_index d agg.oracle_responses)
              (oracle_request resp.price_response block),
          resp.price_response,
        )
  unfolding process_signed_oracle_response read_task
  read_task-accepted {d} h accepted =
      let i = agg.oracle_request_index in
      let priced = store_price resp.price_response agg in
      let taken = (initialize_new_task lib service block priced).1 in
      ground (
        arith,
        lookup-insert_self i resp.price_response agg.prices,
        store_response_has i d (oracle_request resp.price_response block) taken refl,
      )
