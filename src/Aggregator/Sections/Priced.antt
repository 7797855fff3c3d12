-- ===== src/Aggregator/Sections/Priced.antt =====
-- Once a call has stored its price, the task always has a price with a digest.
use blockless_avs_tools.Base.{
  ℕ, List, [], ◌∷◌, Result, ok, err, ◌≡◌, arith, All, All-get, All-set, lookup_or, nat_eq, bytes_eq,
  lookup-insert_self,
}
use blockless_avs_tools.Bindings.{Price, zero_price}
use blockless_avs_tools.Core.Digest.{AbiLib, get_price_digest}
use blockless_avs_tools.Aggregator.State.{BlsService, Aggregator}
use blockless_avs_tools.Aggregator.Rpc.{
  store_price, store_response, initialize_new_task, oracle_request,
}
use blockless_avs_tools.Aggregator.Sections.{
  Phase, received, digested, pricing, initializing, storing, signing, finished, or_finish, advance,
  System, Step, arrive, move, background, Reach, start, next,
}
use blockless_avs_tools.Aggregator.Sections.Invariant.{CallIsValid}
use blockless_avs_tools.Aggregator.Sections.Reachable.{Reach-IsSafe}

module _ {T S : Type 0} (lib : AbiLib T) where
  -- The price of the task has a digest.
  abbrev pub Priced : Aggregator S → Type 0
  Priced agg = (d : List ℕ) × (get_price_digest lib (lookup_or 0 agg.prices zero_price) ≡ ok d)

  store_price-Priced :
      (p : Price) (d : List ℕ) (agg : Aggregator S)
      → agg.oracle_request_index ≡ 0
      → get_price_digest lib p ≡ ok d
      → Priced (store_price p agg)
  unfolding store_price
  store_price-Priced p d agg z h = (d, ground (arith, lookup-insert_self 0 p agg.prices))

module _ {T Sig S : Type 0} (lib : AbiLib T) where
  -- It does once a call has stored its price.
  abbrev pub PhaseIsPriced : Aggregator S → Phase Sig → Type 0
  PhaseIsPriced agg (initializing _ _ _) = Priced lib agg
  PhaseIsPriced agg (storing _ _ _) = Priced lib agg
  PhaseIsPriced agg (signing _ _) = Priced lib agg
  PhaseIsPriced agg _ = Unit {0}

  or_finish-PhaseIsPriced :
      {A : Type 0} (agg : Aggregator S) (r : Result A) (after : A → Phase Sig)
      → ((a : A) → PhaseIsPriced agg (after a))
      → PhaseIsPriced agg (or_finish r after)
  or_finish-PhaseIsPriced agg (ok a) after h = h a
  or_finish-PhaseIsPriced agg (err e) after h = tt

  module _ (service : BlsService Sig S) where
    -- A move only ever replaces the price of the task by another with a digest.
    advance-Priced :
        (block_number : Result ℕ) (p : Phase Sig) (agg : Aggregator S)
        → agg.oracle_request_index ≡ 0
        → CallIsValid lib agg p
        → Priced lib agg
        → Priced lib (advance lib service block_number p agg).1
    unfolding advance store_response
    advance-Priced b (received resp) agg z c h = h
    advance-Priced b (digested resp d) agg z c h = h
    advance-Priced b (pricing resp d n) agg z c h =
        store_price-Priced lib resp.price_response d agg z c
    advance-Priced b (initializing resp d n) agg z c h = h
    advance-Priced b (storing resp d req) agg z c h = h
    advance-Priced b (signing resp d) agg z c h = h
    advance-Priced b (finished r) agg z c h = h

    advance-PhaseIsPriced :
        (block_number : Result ℕ) (p : Phase Sig) (agg : Aggregator S)
        → agg.oracle_request_index ≡ 0
        → CallIsValid lib agg p
        → PhaseIsPriced agg p
        → PhaseIsPriced
            (advance lib service block_number p agg).1
            (advance lib service block_number p agg).0
    unfolding advance store_response
    advance-PhaseIsPriced b (received resp) agg z c h =
        or_finish-PhaseIsPriced agg _ (digested resp) (λ _. tt)
    advance-PhaseIsPriced b (digested resp d) agg z c h =
        or_finish-PhaseIsPriced agg b (pricing resp d) (λ _. tt)
    advance-PhaseIsPriced b (pricing resp d n) agg z c h =
        store_price-Priced lib resp.price_response d agg z c
    advance-PhaseIsPriced b (initializing resp d n) agg z c h =
        let (r, agg') = initialize_new_task lib service n agg in
        or_finish-PhaseIsPriced agg' r (λ _. storing resp d (oracle_request resp.price_response n))
          (λ _. h)
    advance-PhaseIsPriced b (storing resp d req) agg z c h = h
    advance-PhaseIsPriced b (signing resp d) agg z c h = tt
    advance-PhaseIsPriced b (finished r) agg z c h = tt

    pub Step-Priced :
        {s t : System lib service} (step : Step lib service s t)
        → Reach lib service s
        → Priced lib s.agg
        → Priced lib t.agg
    Step-Priced (arrive s resp) r h = h
    Step-Priced (move s i p b e) r h =
        let safe = Reach-IsSafe lib service r in
        advance-Priced b p s.agg safe.maps.index_zero
          (All-get (CallIsValid lib s.agg) s.calls i safe.calls e) h
    Step-Priced (background s state) r h = h

    PhaseIsPriced-mono :
        (agg agg' : Aggregator S) (p : Phase Sig)
        → (Priced lib agg → Priced lib agg')
        → PhaseIsPriced agg p
        → PhaseIsPriced agg' p
    PhaseIsPriced-mono agg agg' (received resp) keep h = tt
    PhaseIsPriced-mono agg agg' (digested resp d) keep h = tt
    PhaseIsPriced-mono agg agg' (pricing resp d n) keep h = tt
    PhaseIsPriced-mono agg agg' (initializing resp d n) keep h = keep h
    PhaseIsPriced-mono agg agg' (storing resp d req) keep h = keep h
    PhaseIsPriced-mono agg agg' (signing resp d) keep h = keep h
    PhaseIsPriced-mono agg agg' (finished r) keep h = tt

    calls_mono :
        (agg agg' : Aggregator S) (ps : List (Phase Sig))
        → (Priced lib agg → Priced lib agg')
        → All (PhaseIsPriced agg) ps
        → All (PhaseIsPriced agg') ps
    calls_mono agg agg' [] keep h = tt
    calls_mono agg agg' (p ∷ ps) keep h =
        (PhaseIsPriced-mono agg agg' p keep h.0, calls_mono agg agg' ps keep h.1)

    -- Every call that has stored its price finds one with a digest there.
    pub Reach-calls_priced :
        {s : System lib service} → Reach lib service s → All (PhaseIsPriced s.agg) s.calls
    Reach-calls_priced (start state) = tt
    Reach-calls_priced (next r (arrive s resp)) = (tt, Reach-calls_priced r)
    Reach-calls_priced (next r (move s i p b e)) =
        let safe = Reach-IsSafe lib service r in
        let known = All-get (CallIsValid lib s.agg) s.calls i safe.calls e in
        let calls = Reach-calls_priced r in
        let agg' = (advance lib service b p s.agg).1 in
        All-set (PhaseIsPriced agg') s.calls i (advance lib service b p s.agg).0
          (calls_mono s.agg agg' s.calls (advance-Priced b p s.agg safe.maps.index_zero known)
            calls)
          (advance-PhaseIsPriced b p s.agg safe.maps.index_zero known
            (All-get (PhaseIsPriced s.agg) s.calls i calls e))
    Reach-calls_priced (next r (background s state)) =
        calls_mono s.agg (record s.agg { bls_aggregation_service = state }) s.calls (λ h. h)
          (Reach-calls_priced r)
