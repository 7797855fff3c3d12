-- ===== src/Aggregator/Sections/Reachable.antt =====
-- What holds in every state that the interleaved calls of the endpoint can reach.
use blockless_avs_tools.Base.{
  ℕ, ◌<◌, ◌^◌, List, [], ◌∷◌, some, ok, ◌≡◌, refl, arith, All, All-set, All-get, All-lookup,
  All-lookup_or, lookup, lookup_or, nat_eq, bytes_eq, get_elem?, Option-cases, inl, inr,
}
use blockless_avs_tools.Bindings.{Price, OracleRequest}
use blockless_avs_tools.Core.Digest.{AbiLib, get_price_digest}
use blockless_avs_tools.Aggregator.State.{
  SignedOracleResponse, BlsService, Aggregator, Responses, response_at, new_aggregator,
}
use blockless_avs_tools.Aggregator.Sections.{
  Phase, signing, advance, System, Step, arrive, move, background, Reach, start, next,
}
use blockless_avs_tools.Aggregator.Sections.Invariant.{
  Answers, TaskEntry, IsValid, CallIsValid, advance-IsValid, advance-response_at,
  advance-CallIsValid, CallIsValid-mono,
}

module _ {T Sig S : Type 0} (lib : AbiLib T) (service : BlsService Sig S) where
  pub record IsSafe (s : System lib service) : Type 0 where
    pub maps : IsValid lib s.agg
    pub calls : All (CallIsValid lib s.agg) s.calls

  calls_mono :
      (agg agg' : Aggregator S) (ps : List (Phase Sig))
      → ((k : List ℕ) (req : OracleRequest)
          → response_at 0 k agg.oracle_responses ≡ some req
          → response_at 0 k agg'.oracle_responses ≡ some req)
      → All (CallIsValid lib agg) ps
      → All (CallIsValid lib agg') ps
  calls_mono agg agg' [] keep h = tt
  calls_mono agg agg' (p ∷ ps) keep h =
      (CallIsValid-mono lib agg agg' p keep h.0, calls_mono agg agg' ps keep h.1)

  pub Step-IsSafe : {s t : System lib service} → Step lib service s t → IsSafe s → IsSafe t
  Step-IsSafe (arrive s resp) h = record { maps = h.maps; calls = (tt, h.calls) }
  Step-IsSafe (move s i p b e) h =
      let c = All-get (CallIsValid lib s.agg) s.calls i h.calls e in
      let agg' = (advance lib service b p s.agg).1 in
      record {
        maps = advance-IsValid lib service b p s.agg h.maps c;
        calls =
            All-set (CallIsValid lib agg') s.calls i (advance lib service b p s.agg).0
              (calls_mono s.agg agg' s.calls
                (λ k req. advance-response_at lib service b p s.agg k h.maps.index_zero {req = req})
                h.calls)
              (advance-CallIsValid lib service b p s.agg h.maps.index_zero c);
      }
  Step-IsSafe (background s state) h = record {
    maps = record {
      index_zero = h.maps.index_zero;
      prices_of_task = h.maps.prices_of_task;
      responses_of_task = h.maps.responses_of_task;
    };
    calls =
        calls_mono s.agg (record s.agg { bls_aggregation_service = state }) s.calls (λ k req e. e)
          h.calls;
  }

  pub Reach-IsSafe : {s : System lib service} → Reach lib service s → IsSafe s
  unfolding new_aggregator
  Reach-IsSafe (start state) = record {
    maps = record { index_zero = refl; prices_of_task = tt; responses_of_task = tt };
    calls = tt;
  }
  Reach-IsSafe (next r st) = Step-IsSafe st (Reach-IsSafe r)

  -- In every reachable state, whatever the interleaving, a request stored under a digest asks for
  -- the symbol of a price that has this digest, from quorum 0 alone, at a threshold of 100 per
  -- cent, at a block number that fits 32 bits.
  pub Reach-request_answers :
      {s : System lib service} (digest : List ℕ) {req : OracleRequest}
      → Reach lib service s
      → response_at 0 digest s.agg.oracle_responses ≡ some req
      → (p : Price) × (get_price_digest lib p ≡ ok digest)
        × (req.symbol ≡ p.symbol)
        × (req.quorum_numbers ≡ 0 ∷ [])
        × (req.quorum_threshold_percentage ≡ 100)
        × (req.reference_block_number < 2 ^ 32)
  Reach-request_answers {s} digest r e =
      let m = s.agg.oracle_responses in
      let entry =
        All-lookup_or (TaskEntry lib) 0 m [] (Reach-IsSafe r).maps.responses_of_task (refl, tt) in
      All-lookup (Answers lib) digest (lookup_or 0 m []) entry.1 e

  -- No step from a reachable state, of whatever call, changes or removes a request that is stored:
  -- the first response with a digest decides it.
  pub Step-keeps_request :
      {s t : System lib service} (digest : List ℕ) {req : OracleRequest}
      → Reach lib service s
      → Step lib service s t
      → response_at 0 digest s.agg.oracle_responses ≡ some req
      → response_at 0 digest t.agg.oracle_responses ≡ some req
  Step-keeps_request digest r (arrive s resp) e = e
  Step-keeps_request digest r (move s i p b f) e =
      advance-response_at lib service b p s.agg digest (Reach-IsSafe r).maps.index_zero e
  Step-keeps_request digest r (background s state) e = e

  -- A reachable call that is about to hand its signature to the aggregation service has the digest
  -- of its own price, and a request is stored under that digest.
  pub Reach-signing_has_request :
      {s : System lib service} (i : ℕ) {resp : SignedOracleResponse Sig} {digest : List ℕ}
      → Reach lib service s
      → get_elem? s.calls i ≡ some (signing resp digest)
      → (get_price_digest lib resp.price_response ≡ ok digest)
        × ((req : OracleRequest) × (response_at 0 digest s.agg.oracle_responses ≡ some req))
  Reach-signing_has_request {s} i r e =
      All-get (CallIsValid lib s.agg) s.calls i (Reach-IsSafe r).calls e

  response_at-zero :
      (j : ℕ) (digest : List ℕ) (req : OracleRequest) (m : Responses)
      → All (TaskEntry lib) m
      → response_at j digest m ≡ some req
      → j ≡ 0
  response_at-zero j digest req m h e = elim (Option-cases (lookup j m)) [
    | inl missing ↦ ground arith
    | inr (inner, f) ↦ (All-lookup (TaskEntry lib) j m h f).0
  ]

  -- Every reachable state has one task: the request index is still 0, and a request that is stored
  -- is stored under index 0.
  pub Reach-one_task :
      {s : System lib service} (j : ℕ) (digest : List ℕ) (req : OracleRequest)
      → Reach lib service s
      → response_at j digest s.agg.oracle_responses ≡ some req
      → (s.agg.oracle_request_index ≡ 0) × (j ≡ 0)
  Reach-one_task {s} j digest req r e =
      let maps = (Reach-IsSafe r).maps in
      (
        maps.index_zero,
        response_at-zero j digest req s.agg.oracle_responses maps.responses_of_task e,
      )
