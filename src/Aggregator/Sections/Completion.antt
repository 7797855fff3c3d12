-- ===== src/Aggregator/Sections/Completion.antt =====
-- What the aggregator submits when the aggregation service completes a task, after any interleaving
-- of the calls of its endpoint.
use blockless_avs_tools.Base.{
  ℕ, ◌<◌, ◌^◌, List, [], ◌∷◌, none, some, ok, returned, ◌≡◌, refl, arith, All-get, get_elem?,
  lookup_or, nat_eq, bytes_eq, ◌∙◌, ◌⊎◌, inl, inr,
}
use blockless_avs_tools.Bindings.{Price, OracleRequest, zero_price, zero_oracle_request}
use blockless_avs_tools.Core.Digest.{AbiLib, get_price_digest}
use blockless_avs_tools.Chainio.Writer.{OracleTx, send_aggregated_oracle_response}
use blockless_avs_tools.Aggregator.State.{BlsService, Aggregator, response_at, new_aggregator}
use blockless_avs_tools.Aggregator.Send.{
  BlsAggregationServiceResponse, non_signer_stakes_and_signature, read_task,
  send_aggregated_oracle_response_to_contract,
}
use blockless_avs_tools.Aggregator.Sections.{
  Phase, received, digested, pricing, initializing, storing, signing, finished, System, Step,
  arrive, move, background, Reach, start, next,
}
use blockless_avs_tools.Aggregator.Sections.Reachable.{
  Reach-IsSafe, Reach-request_answers, Step-keeps_request, Reach-signing_has_request,
}
use blockless_avs_tools.Aggregator.Sections.Termination.{Steps, rest, more}
use blockless_avs_tools.Aggregator.Sections.Priced.{
  Priced, PhaseIsPriced, Step-Priced, Reach-calls_priced,
}

module _ {Fp W Opts Tx Receipt S : Type 0} (big_int : Fp → ℕ)
    (tx_mgr : OracleTx W Opts Tx Receipt) where
  completed-sends :
      (answer : BlsAggregationServiceResponse Fp) (agg : Aggregator S) (w : W) {req : OracleRequest}
      → answer.service_err ≡ none
      → answer.task_index ≡ 0
      → response_at 0 answer.task_response_digest agg.oracle_responses ≡ some req
      → send_aggregated_oracle_response_to_contract big_int tx_mgr answer agg w ≡ (
        returned tt,
        (send_aggregated_oracle_response tx_mgr req
            (lookup_or 0 agg.prices zero_price)
            (non_signer_stakes_and_signature big_int answer)
            w).1,
      )
  unfolding send_aggregated_oracle_response_to_contract read_task
  completed-sends answer agg w {req} fine index stored =
      let inner = lookup_or 0 agg.oracle_responses [] in
      let read : lookup_or answer.task_response_digest inner zero_oracle_request ≡ req =
        ground (arith, stored) in
      rw (fine, index, read) refl

module _ {T Sig S : Type 0} (lib : AbiLib T) (service : BlsService Sig S) where
  -- The last move of a call hands its digest over to the service, for the task of the index.
  abbrev HandsOver : Phase Sig → ℕ → ℕ → List ℕ → Type 0
  HandsOver (signing resp digest) index i d = (i ≡ index) × (d ≡ digest)
  HandsOver _ index i d = ⊥

  -- What the service has been handed in some steps.
  abbrev pub WasHandedOver :
      {s t : System lib service} → Steps lib service s t → ℕ → List ℕ → Type 0
  WasHandedOver (rest s) i d = ⊥
  WasHandedOver (more steps (arrive s resp)) i d = WasHandedOver steps i d
  WasHandedOver (more steps (move s j p b h)) i d =
      HandsOver p s.agg.oracle_request_index i d ⊎ WasHandedOver steps i d
  WasHandedOver (more steps (background s state)) i d = WasHandedOver steps i d

  Reach-Steps :
      {s t : System lib service} → Reach lib service s → Steps lib service s t → Reach lib service t
  Reach-Steps r (rest s) = r
  Reach-Steps r (more steps step) = next (Reach-Steps r steps) step

  -- A task that can be completed has its request and a price.
  IsReady : Aggregator S → ℕ → List ℕ → Type 0
  IsReady agg i d =
      (i ≡ 0)
      × ((req : OracleRequest) × (response_at 0 d agg.oracle_responses ≡ some req))
      × Priced lib agg

  Step-IsReady :
      {s t : System lib service} (step : Step lib service s t) (i : ℕ) (d : List ℕ)
      → Reach lib service s
      → IsReady s.agg i d
      → IsReady t.agg i d
  unfolding IsReady
  Step-IsReady step i d r (z, (req, stored), priced) = (
    z,
    (req, Step-keeps_request lib service d r step stored),
    Step-Priced lib service step r priced,
  )

  HandsOver-IsReady :
      {s : System lib service} (j : ℕ) (p : Phase Sig) (i : ℕ) (d : List ℕ)
      → Reach lib service s
      → get_elem? s.calls j ≡ some p
      → HandsOver p s.agg.oracle_request_index i d
      → IsReady s.agg i d
  unfolding IsReady
  HandsOver-IsReady {s} j (signing resp digest) i d r e (index, same) =
      let (_, (req, stored)) = Reach-signing_has_request lib service j r e in
      let priced =
        All-get (PhaseIsPriced lib s.agg) s.calls j (Reach-calls_priced lib service r) e in
      let zero_index = (Reach-IsSafe lib service r).maps.index_zero in
      (index ∙ zero_index, (req, rw same stored), priced)
  HandsOver-IsReady j (received resp) i d r e h = absurd h
  HandsOver-IsReady j (digested resp x) i d r e h = absurd h
  HandsOver-IsReady j (pricing resp x n) i d r e h = absurd h
  HandsOver-IsReady j (initializing resp x n) i d r e h = absurd h
  HandsOver-IsReady j (storing resp x req) i d r e h = absurd h
  HandsOver-IsReady j (finished x) i d r e h = absurd h

  WasHandedOver-IsReady :
      {s t : System lib service} (steps : Steps lib service s t) (i : ℕ) (d : List ℕ)
      → Reach lib service s
      → WasHandedOver steps i d
      → IsReady t.agg i d
  WasHandedOver-IsReady (rest s) i d r h = absurd h
  WasHandedOver-IsReady (more steps (arrive s resp)) i d r h =
      Step-IsReady (arrive s resp) i d (Reach-Steps r steps) (WasHandedOver-IsReady steps i d r h)
  WasHandedOver-IsReady (more steps (background s state)) i d r h =
      Step-IsReady (background s state) i d (Reach-Steps r steps)
        (WasHandedOver-IsReady steps i d r h)
  WasHandedOver-IsReady (more steps (move s j p b e)) i d r h =
      Step-IsReady (move s j p b e) i d (Reach-Steps r steps) (elim h [
        | inl now ↦ HandsOver-IsReady j p i d (Reach-Steps r steps) e now
        | inr before ↦ WasHandedOver-IsReady steps i d r before
      ])

  -- When the aggregation service completes, without an error, a task with a digest that it was
  -- handed, then, whatever calls of the endpoint have interleaved since the start, the aggregator
  -- sends the contract a request that was made for a price with this digest, from quorum 0 alone at
  -- 100 per cent, and a price that has a digest, though not always this one: never the zero values
  -- that the maps give for a missing key.
  pub completed-sends_request :
      {Fp W Opts Tx Receipt : Type 0} (big_int : Fp → ℕ) (tx_mgr : OracleTx W Opts Tx Receipt)
      (state : S) {t : System lib service}
      (steps : Steps lib service (record { agg = new_aggregator state; calls = [] }) t)
      (answer : BlsAggregationServiceResponse Fp) (w : W)
      → answer.service_err ≡ none
      → WasHandedOver steps answer.task_index answer.task_response_digest
      → (req : OracleRequest) × (price : Price) × (p : Price) × (d : List ℕ)
        × (send_aggregated_oracle_response_to_contract big_int tx_mgr answer t.agg w ≡ (
          returned tt,
          (send_aggregated_oracle_response tx_mgr req price
              (non_signer_stakes_and_signature big_int answer)
              w).1,
        ))
        × (get_price_digest lib p ≡ ok answer.task_response_digest)
        × (req.symbol ≡ p.symbol)
        × (req.quorum_numbers ≡ 0 ∷ [])
        × (req.quorum_threshold_percentage ≡ 100)
        × (req.reference_block_number < 2 ^ 32)
        × (get_price_digest lib price ≡ ok d)
  unfolding IsReady
  completed-sends_request big_int tx_mgr state {t} steps answer w fine handed =
      let (index, (req, stored), (d, priced)) =
        WasHandedOver-IsReady steps answer.task_index answer.task_response_digest (start state)
          handed in
      let (p, of_digest, symbol, quorums, threshold, block) =
        Reach-request_answers lib service answer.task_response_digest
          (Reach-Steps (start state) steps) stored in
      let price = lookup_or 0 t.agg.prices zero_price in
      (
        req,
        price,
        p,
        d,
        completed-sends big_int tx_mgr answer t.agg w fine index stored,
        of_digest,
        symbol,
        quorums,
        threshold,
        block,
        priced,
      )
