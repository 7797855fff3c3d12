-- ===== src/Aggregator/Rpc/Running.antt =====
-- What the constant request index means beside a service that runs one task per index.
use blockless_avs_tools.Base.{
  ℕ, List, [], ◌∷◌, some, ok, err, GoError, ◌≡◌, arith, u32, insert, nat_eq, Bool, true, Result,
  Result-cases, inl, inr, subst, ap, lookup-insert_self, bytes_eq, Option-cases,
}
use blockless_avs_tools.Core.Digest.{AbiLib, get_price_digest}
use blockless_avs_tools.Aggregator.State.{SignedOracleResponse, BlsService, Aggregator, response_at}
use blockless_avs_tools.Aggregator.Rpc.Store.{first_of_two}
use blockless_avs_tools.Aggregator.Send.{read_task}
use blockless_avs_tools.Aggregator.Send.Laws.{read_task-accepted}
use blockless_avs_tools.Aggregator.Rpc.{process_signed_oracle_response, oracle_request}

-- The SDK's service runs a task from `InitializeNewTask` until it completes or expires, and refuses
-- to initialize an index whose task runs. `has_task` reads off its state that a task runs.
pub record RunsOneTaskPerIndex {Sig S : Type 0} (service : BlsService Sig S) : Type 0 where
  pub has_task : ℕ → S → Bool
  pub already_initialized : ℕ → GoError
  pub running_task_is_refused :
      (i block : ℕ) (quorums percentages : List ℕ) (expiry : ℕ) (s : S)
      → has_task i s ≡ true
      → service.initialize_new_task i block quorums percentages expiry s
        ≡ (some (already_initialized i), s)

module _ {T Sig S : Type 0} (lib : AbiLib T) (service : BlsService Sig S)
    (r : RunsOneTaskPerIndex service) where
  -- While the task runs, every response whose price has a digest is refused, its signature never
  -- reaches the service, and its price replaces the price of the running task.
  pub running-refused :
      (resp : SignedOracleResponse Sig) (block : ℕ) {d : List ℕ} (agg : Aggregator S)
      → r.has_task agg.oracle_request_index agg.bls_aggregation_service ≡ true
      → get_price_digest lib resp.price_response ≡ ok d
      → process_signed_oracle_response lib service resp (ok block) agg ≡ (
        err (r.already_initialized agg.oracle_request_index),
        record agg { prices = insert agg.oracle_request_index resp.price_response agg.prices },
      )
  unfolding process_signed_oracle_response
  running-refused resp block agg live h = ground (
    arith,
    r.running_task_is_refused agg.oracle_request_index (u32 block) (0 ∷ []) (100 ∷ []) 1200000000000
        agg.bls_aggregation_service live,
  )

  -- No response changes the index.
  response-keeps_index :
      (resp : SignedOracleResponse Sig) (block : Result ℕ) (agg : Aggregator S)
      → (process_signed_oracle_response lib service resp block agg).1.oracle_request_index
        ≡ agg.oracle_request_index
  unfolding process_signed_oracle_response
  response-keeps_index resp block agg =
      let i = agg.oracle_request_index in
      elim (Result-cases (get_price_digest lib resp.price_response)) [
        | inr (_, no_digest) ↦ ground arith
        | inl (d, digest) ↦ elim (Result-cases block) [
          | inr (_, no_block) ↦ ground arith
          | inl (b, read) ↦
              let (refused, _) =
                service.initialize_new_task i (u32 b) (0 ∷ []) (100 ∷ []) 1200000000000
                  agg.bls_aggregation_service in
              elim (Option-cases refused) [
                | inl taken ↦ ground arith
                | inr (_, failed) ↦ ground arith
              ]
        ]
      ]

  -- After a response that was accepted, and any work of the service after which the task of that
  -- response still runs, a second response is refused as already initialized: every response is for
  -- the same index. Its signature never reaches the service and no request is stored for it, but
  -- its price replaces the price of the running task: under the digest of the first response the
  -- aggregator then reads the request that was stored first for this digest, with the price of the
  -- second response.
  pub second_response_refused :
      (first second : SignedOracleResponse Sig) (block block' : ℕ) {d d' : List ℕ}
      (agg : Aggregator S) (s : S)
      → get_price_digest lib first.price_response ≡ ok d
      → get_price_digest lib second.price_response ≡ ok d'
      → (process_signed_oracle_response lib service first (ok block) agg).0 ≡ ok tt
      → r.has_task agg.oracle_request_index s ≡ true
      → let i = agg.oracle_request_index in
        let accepted = (process_signed_oracle_response lib service first (ok block) agg).1 in
        let later = record accepted { bls_aggregation_service = s } in
        let (result, after) = process_signed_oracle_response lib service second (ok block') later in
        (result ≡ err (r.already_initialized i))
        × (after ≡ record later { prices = insert i second.price_response accepted.prices })
        × (read_task after i d ≡ (
          first_of_two
              (response_at i d agg.oracle_responses)
              (oracle_request first.price_response block),
          second.price_response,
        ))
  unfolding read_task
  second_response_refused first second block block' {d} agg s digest e taken live =
      let i = agg.oracle_request_index in
      let accepted = (process_signed_oracle_response lib service first (ok block) agg).1 in
      let later : Aggregator S = record accepted { bls_aggregation_service = s } in
      let same = response-keeps_index first (ok block) agg in
      let moved = λ (i : ℕ). process_signed_oracle_response lib service second (ok block') later ≡ (
        err (r.already_initialized i),
        record later { prices = insert i second.price_response accepted.prices },
      ) in
      let refused = subst moved same (running-refused second block' later (rw same live) e) in
      let read = read_task-accepted lib service first block agg digest taken in
      (
        ap (λ x. x.0) refused,
        ap (λ x. x.1) refused,
        rw refused (
            ground (
              arith,
              ap (λ x. x.0) read,
              lookup-insert_self i second.price_response accepted.prices,
            )),
      )
