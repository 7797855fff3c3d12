-- ===== src/Aggregator/Rpc/Store.antt =====
-- The two critical sections of aggregator/rpc_server.go, as operations on the maps.
use blockless_avs_tools.Base.{
  ℕ, List, [], Option, none, some, ◌≡◌, refl, arith, if◌then◌else◌, insert, lookup_or,
  lookup-insert, lookup-insert_self, nat_eq, bytes_eq, ◌==◌, ==_refl, bytes_beq_iff,
}
use blockless_avs_tools.Bindings.{OracleRequest}
use blockless_avs_tools.Aggregator.State.{Aggregator, Responses, response_at}
use blockless_avs_tools.Aggregator.Rpc.{open_task, store_response}

-- The first request stored for a digest wins.
abbrev pub first_of_two : Option OracleRequest → OracleRequest → OracleRequest
first_of_two none req = req
first_of_two (some old) req = old

lookup_or-open_task : (i : ℕ) (m : Responses) → lookup_or i (open_task i m) [] ≡ lookup_or i m []
lookup_or-open_task i m = ground (arith, lookup-insert_self i [] m)

module _ {S : Type 0} where
  -- After the second section the digest's request is the one that stood there before, or the new
  -- one if there was none; every other digest of the task keeps its request.
  pub response_at-store_response :
      (digest k : List ℕ) (req : OracleRequest) (agg : Aggregator S)
      → let i = agg.oracle_request_index in
        response_at i k (store_response digest req agg).oracle_responses ≡ (
          if digest == k
          then some (first_of_two (response_at i k agg.oracle_responses) req)
          else response_at i k agg.oracle_responses)
  unfolding store_response
  response_at-store_response digest k req agg =
      let i = agg.oracle_request_index in
      let opened = open_task i agg.oracle_responses in
      let inner = lookup_or i agg.oracle_responses [] in
      ground (
        arith,
        lookup_or-open_task i agg.oracle_responses,
        lookup-insert_self i (insert digest req inner) opened,
        lookup-insert digest k req inner,
        bytes_beq_iff digest k,
      )

  -- At the task's index: a request that is stored stays.
  pub store_response_keeps :
      (i : ℕ) (digest k : List ℕ) (req : OracleRequest) (agg : Aggregator S)
      → agg.oracle_request_index ≡ i
      → (old : OracleRequest) → response_at i k agg.oracle_responses ≡ some old
      → response_at i k (store_response digest req agg).oracle_responses ≡ some old
  store_response_keeps i digest k req agg z old h =
      rw (← z) (rw (response_at-store_response digest k req agg) (rw (z, h) (ground arith)))

  -- The digest has a request afterwards.
  pub store_response_has :
      (i : ℕ) (digest : List ℕ) (req : OracleRequest) (agg : Aggregator S)
      → agg.oracle_request_index ≡ i
      → response_at i digest (store_response digest req agg).oracle_responses
        ≡ some (first_of_two (response_at i digest agg.oracle_responses) req)
  store_response_has i digest req agg z =
      rw (← z) (rw (response_at-store_response digest digest req agg, ==_refl digest) refl)
