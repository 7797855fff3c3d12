-- ===== src/Aggregator/Sections/Invariant.antt =====
-- What holds of the maps and of every call in flight, and that each move keeps it.
use blockless_avs_tools.Base.{
  ℕ, ◌<◌, ◌^◌, List, [], ◌∷◌, some, Result, ok, err, ◌≡◌, refl, arith, All, All-insert,
  All-lookup_or, Bool-cases, inl, inr, insert, contains, lookup_or, nat_eq, bytes_eq, sym, subst,
}
use blockless_avs_tools.Bindings.{Price, OracleRequest}
use blockless_avs_tools.Core.Digest.{AbiLib, get_price_digest}
use blockless_avs_tools.Aggregator.State.{BlsService, Aggregator, Responses, response_at}
use blockless_avs_tools.Aggregator.Rpc.{
  or_digest_error, open_task, store_price, store_response, oracle_request, initialize_new_task,
}
use blockless_avs_tools.Aggregator.Rpc.Store.{store_response_keeps, store_response_has}
use blockless_avs_tools.Aggregator.Sections.{
  Phase, received, digested, pricing, initializing, storing, signing, finished, advance, or_finish,
}

-- What is stored under a digest, and which keys the maps have.
module _ {T : Type 0} (lib : AbiLib T) where
  -- The entry's request asks for the symbol of a price with that digest, from quorum 0 at 100%.
  abbrev pub Answers : List ℕ × OracleRequest → Type 0
  Answers (digest, req) =
      (p : Price) × (get_price_digest lib p ≡ ok digest)
      × (req.symbol ≡ p.symbol)
      × (req.quorum_numbers ≡ 0 ∷ [])
      × (req.quorum_threshold_percentage ≡ 100)
      × (req.reference_block_number < 2 ^ 32)

  abbrev pub TaskEntry : ℕ × List (List ℕ × OracleRequest) → Type 0
  TaskEntry (i, inner) = (i ≡ 0) × All Answers inner

  oracle_request-Answers :
      (p : Price) (block : ℕ) {d : List ℕ}
      → get_price_digest lib p ≡ ok d
      → Answers (d, oracle_request p block)
  unfolding oracle_request
  oracle_request-Answers p block h = (p, h, refl, refl, refl, omega arith)

  open_task-TaskEntry :
      (i : ℕ) (m : Responses) → i ≡ 0 → All TaskEntry m → All TaskEntry (open_task i m)
  open_task-TaskEntry i m z h = elim (Bool-cases (contains i m)) [
    | inl e ↦ rw e h
    | inr e ↦ rw e (All-insert TaskEntry i [] m h (z, tt))
  ]

abbrev pub PriceEntry : ℕ × Price → Type 0
PriceEntry (i, _) = i ≡ 0

module _ {T S : Type 0} (lib : AbiLib T) where
  -- One task only, and every stored request answers its digest.
  pub record IsValid (agg : Aggregator S) : Type 0 where
    pub index_zero : agg.oracle_request_index ≡ 0
    pub prices_of_task : All PriceEntry agg.prices
    pub responses_of_task : All (TaskEntry lib) agg.oracle_responses

  store_price-IsValid : (p : Price) (agg : Aggregator S) → IsValid agg → IsValid (store_price p agg)
  unfolding store_price
  store_price-IsValid p agg v = record {
    index_zero = v.index_zero;
    prices_of_task =
        All-insert PriceEntry agg.oracle_request_index p agg.prices v.prices_of_task v.index_zero;
    responses_of_task = v.responses_of_task;
  }

  store_response-IsValid :
      (d : List ℕ) (req : OracleRequest) (agg : Aggregator S)
      → Answers lib (d, req)
      → IsValid agg
      → IsValid (store_response d req agg)
  unfolding store_response
  store_response-IsValid d req agg a v =
      let i = agg.oracle_request_index in
      let opened = open_task i agg.oracle_responses in
      let inner = lookup_or i opened [] in
      let opened_valid =
        open_task-TaskEntry lib i agg.oracle_responses v.index_zero v.responses_of_task in
      let entry = All-lookup_or (TaskEntry lib) i opened [] opened_valid (v.index_zero, tt) in
      record {
        index_zero = v.index_zero;
        prices_of_task = v.prices_of_task;
        responses_of_task = elim (Bool-cases (contains d inner)) [
          | inl e ↦ rw e opened_valid
          | inr e ↦ rw e (
              All-insert (TaskEntry lib) i (insert d req inner) opened opened_valid
                (v.index_zero, All-insert (Answers lib) d req inner entry.1 a))
        ];
      }

module _ {T Sig S : Type 0} (lib : AbiLib T) where
  -- What a call knows by its phase; before its last move its digest has a request.
  abbrev pub CallIsValid : Aggregator S → Phase Sig → Type 0
  CallIsValid agg (received _) = Unit
  CallIsValid agg (digested resp d) = get_price_digest lib resp.price_response ≡ ok d
  CallIsValid agg (pricing resp d _) = get_price_digest lib resp.price_response ≡ ok d
  CallIsValid agg (initializing resp d _) = get_price_digest lib resp.price_response ≡ ok d
  CallIsValid agg (storing resp d req) =
      (get_price_digest lib resp.price_response ≡ ok d)
      × ((block : ℕ) × (req ≡ oracle_request resp.price_response block))
  CallIsValid agg (signing resp d) =
      (get_price_digest lib resp.price_response ≡ ok d)
      × ((req : OracleRequest) × (response_at 0 d agg.oracle_responses ≡ some req))
  CallIsValid agg (finished _) = Unit

  module _ (service : BlsService Sig S) where
    -- A move of a call keeps the maps valid.
    pub advance-IsValid :
        (block_number : Result ℕ) (p : Phase Sig) (agg : Aggregator S)
        → IsValid lib agg
        → CallIsValid agg p
        → IsValid lib (advance lib service block_number p agg).1
    unfolding advance
    advance-IsValid b (received resp) agg v c = v
    advance-IsValid b (digested resp d) agg v c = v
    advance-IsValid b (pricing resp d n) agg v c = store_price-IsValid lib resp.price_response agg v
    advance-IsValid b (initializing resp d n) agg v c = record {
      index_zero = v.index_zero;
      prices_of_task = v.prices_of_task;
      responses_of_task = v.responses_of_task;
    }
    advance-IsValid b (storing resp d req) agg v c =
        store_response-IsValid lib d req agg
          (subst (λ r. Answers lib (d, r)) (sym c.1.1)
            (oracle_request-Answers lib resp.price_response c.1.0 c.0))
          v
    advance-IsValid b (signing resp d) agg v c = record {
      index_zero = v.index_zero;
      prices_of_task = v.prices_of_task;
      responses_of_task = v.responses_of_task;
    }
    advance-IsValid b (finished r) agg v c = v

    -- A move leaves every request that is stored where it is.
    pub advance-response_at :
        (block_number : Result ℕ) (p : Phase Sig) (agg : Aggregator S) (k : List ℕ)
        → agg.oracle_request_index ≡ 0
        → {req : OracleRequest} → response_at 0 k agg.oracle_responses ≡ some req
        → response_at 0 k (advance lib service block_number p agg).1.oracle_responses ≡ some req
    unfolding advance
    advance-response_at b (received resp) agg k z h = h
    advance-response_at b (digested resp d) agg k z h = h
    advance-response_at b (pricing resp d n) agg k z h = h
    advance-response_at b (initializing resp d n) agg k z h = h
    advance-response_at b (storing resp d r) agg k z {req} h =
        store_response_keeps 0 d k r agg z req h
    advance-response_at b (signing resp d) agg k z h = h
    advance-response_at b (finished r) agg k z h = h

    or_finish-CallIsValid :
        {A : Type 0} (agg : Aggregator S) (r : Result A) (after : A → Phase Sig)
        → ((a : A) → r ≡ ok a → CallIsValid agg (after a))
        → CallIsValid agg (or_finish r after)
    or_finish-CallIsValid agg (ok a) after h = h a refl
    or_finish-CallIsValid agg (err e) after h = tt

    or_digest_error-eq-ok :
        {A : Type 0} (r : Result A) {a : A} → or_digest_error r ≡ ok a → r ≡ ok a
    or_digest_error-eq-ok (ok a) h = h
    or_digest_error-eq-ok (err e) h = cc

    -- The call that moves knows what its new phase says.
    pub advance-CallIsValid :
        (block_number : Result ℕ) (p : Phase Sig) (agg : Aggregator S)
        → agg.oracle_request_index ≡ 0
        → CallIsValid agg p
        → CallIsValid
            (advance lib service block_number p agg).1
            (advance lib service block_number p agg).0
    unfolding advance
    advance-CallIsValid b (received resp) agg z c =
        or_finish-CallIsValid agg (or_digest_error (get_price_digest lib resp.price_response))
          (digested resp) (λ d h. or_digest_error-eq-ok _ h)
    advance-CallIsValid b (digested resp d) agg z c =
        or_finish-CallIsValid agg b (pricing resp d) (λ n h. c)
    advance-CallIsValid b (pricing resp d n) agg z c = c
    advance-CallIsValid b (initializing resp d n) agg z c =
        let (r, agg') = initialize_new_task lib service n agg in
        or_finish-CallIsValid agg' r (λ _. storing resp d (oracle_request resp.price_response n))
          (λ _ _. (c, (n, refl)))
    advance-CallIsValid b (storing resp d r) agg z c = (c.0, (_, store_response_has 0 d r agg z))
    advance-CallIsValid b (signing resp d) agg z c = tt
    advance-CallIsValid b (finished r) agg z c = tt

  -- A call's knowledge outlives the moves of the others.
  pub CallIsValid-mono :
      (agg agg' : Aggregator S) (p : Phase Sig)
      → ((k : List ℕ) (req : OracleRequest)
          → response_at 0 k agg.oracle_responses ≡ some req
          → response_at 0 k agg'.oracle_responses ≡ some req)
      → CallIsValid agg p
      → CallIsValid agg' p
  CallIsValid-mono agg agg' (received resp) keep c = tt
  CallIsValid-mono agg agg' (digested resp d) keep c = c
  CallIsValid-mono agg agg' (pricing resp d n) keep c = c
  CallIsValid-mono agg agg' (initializing resp d n) keep c = c
  CallIsValid-mono agg agg' (storing resp d r) keep c = c
  CallIsValid-mono agg agg' (signing resp d) keep c = (c.0, (c.1.0, keep d c.1.0 c.1.1))
  CallIsValid-mono agg agg' (finished r) keep c = tt
