-- ===== src/Aggregator/Sections.antt =====
-- `net/rpc` runs every call of the endpoint in a goroutine of its own, so the calls interleave
-- between the critical sections of aggregator/rpc_server.go. A call is a `Phase`, `advance` is its
-- next section or its next call of the service, and `Step` lets any call move.
pub mod Progress
pub mod Invariant
pub mod Reachable
pub mod Termination
pub mod Priced
pub mod Completion
mod Examples
use blockless_avs_tools.Base.{
  ℕ, zero, suc, List, [], ◌∷◌, Result, ok, err, GoError, Option, none, some, get_elem?, set, ◌≡◌,
}
use blockless_avs_tools.Bindings.{Price, OracleRequest}
use blockless_avs_tools.Core.Digest.{AbiLib, get_price_digest}
use blockless_avs_tools.Aggregator.State.{
  SignedOracleResponse, BlsService, Aggregator, new_aggregator,
}
use blockless_avs_tools.Aggregator.Rpc.{
  or_digest_error, store_price, store_response, oracle_request, initialize_new_task,
  process_new_signature,
}

-- How far a call of `ProcessSignedOracleResponse` has come, with its local variables.
pub data Phase (Sig : Type 0) : Type 0 where
  received : SignedOracleResponse Sig → Phase Sig
  digested : SignedOracleResponse Sig → List ℕ → Phase Sig
  pricing : SignedOracleResponse Sig → List ℕ → ℕ → Phase Sig
  initializing : SignedOracleResponse Sig → List ℕ → ℕ → Phase Sig
  storing : SignedOracleResponse Sig → List ℕ → OracleRequest → Phase Sig
  signing : SignedOracleResponse Sig → List ℕ → Phase Sig
  finished : Result (Unit {0}) → Phase Sig

-- The phase after a call whose error ends the endpoint.
abbrev pub or_finish {ℓ} : {Sig : Type 0} {A : Type ℓ} → Result A → (A → Phase Sig) → Phase Sig
or_finish (ok a) next = next a
or_finish (err e) next = finished (err e)

module _ {T Sig S : Type 0} (lib : AbiLib T) (service : BlsService Sig S) where
  -- One atomic move of a call; `block_number` is the client's answer, if the move asks for it.
  unfoldable pub advance : Result ℕ → Phase Sig → Aggregator S → Phase Sig × Aggregator S
  unfolding store_price store_response oracle_request initialize_new_task process_new_signature
  advance block_number (received resp) agg =
      (or_finish (or_digest_error (get_price_digest lib resp.price_response)) (digested resp), agg)
  advance block_number (digested resp digest) agg =
      (or_finish block_number (pricing resp digest), agg)
  advance block_number (pricing resp digest block) agg =
      (initializing resp digest block, store_price resp.price_response agg)
  advance block_number (initializing resp digest block) agg =
      let (r, agg') = initialize_new_task lib service block agg in
      (or_finish r (λ _. storing resp digest (oracle_request resp.price_response block)), agg')
  advance block_number (storing resp digest req) agg =
      (signing resp digest, store_response digest req agg)
  advance block_number (signing resp digest) agg =
      let (r, agg') = process_new_signature lib service digest resp agg in (finished r, agg')
  advance block_number (finished r) agg = (finished r, agg)

  -- `n` moves of one call with nothing in between.
  unfoldable pub advance_many : ℕ → Result ℕ → Phase Sig × Aggregator S → Phase Sig × Aggregator S
  advance_many zero block_number s = s
  advance_many (suc n) block_number (p, agg) =
      advance_many n block_number (advance block_number p agg)

  -- The shared state and the calls in flight.
  pub record System : Type 0 where
    pub agg : Aggregator S
    pub calls : List (Phase Sig)

  -- A call arrives; a call moves; the service's own goroutines change its state.
  pub data Step : System → System → Type 0 where
    arrive :
        (s : System) (resp : SignedOracleResponse Sig)
        → Step s (record s { calls = received resp ∷ s.calls })
    move :
        (s : System) (i : ℕ) (p : Phase Sig) (block_number : Result ℕ)
        → get_elem? s.calls i ≡ some p
        → Step s (record {
          agg = (advance block_number p s.agg).1;
          calls = set s.calls i (advance block_number p s.agg).0;
        })
    background :
        (s : System) (state : S)
        → Step s (record s { agg = record s.agg { bls_aggregation_service = state } })

  -- What can happen after `NewAggregator`.
  pub data Reach : System → Type 0 where
    start : (state : S) → Reach (record { agg = new_aggregator state; calls = [] })
    next : {s t : System} → Reach s → Step s t → Reach t
