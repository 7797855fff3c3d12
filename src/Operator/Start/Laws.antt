-- ===== src/Operator/Start/Laws.antt =====
-- The operator's main loop against a description of what it should send.
use blockless_avs_tools.Base.{
  ℕ, ◌+◌, ◌≤◌, String, List, [], ◌∷◌, ◌++◌, Bool, true, false, Result, ok, err, GoError, ◌≡◌, ◌≢◌,
  refl, arith, length, ◌∙◌,
}
use mathlib.Core.Path.{ap₂}
use mathlib.Core.List.{append-nil, append_assoc}
use native.Mathlib.Nat.{add-zero}
use blockless_avs_tools.Core.Digest.{AbiLib}
use blockless_avs_tools.Aggregator.State.{SignedOracleResponse}
use blockless_avs_tools.Operator.Coingecko.{Float64, Http}
use blockless_avs_tools.Operator.Start.{
  Event, ctx_done, metrics_error, oracle_update, Status, waiting, stopped, exited, refused, Running,
  not_registered, respond, send, start_loop, start,
}

-- A request with the answers that its handling reads.
abbrev pub Request : Type 0 → Type 0 → Type 0
Request F Resp = String × Result ℕ × Http F Resp

-- The requests that come before the loop ends.
abbrev pub handled : {F Resp : Type 0} → List (Event F Resp) → List (Request F Resp)
handled [] = []
handled (ctx_done ∷ events) = []
handled (metrics_error e ∷ events) = []
handled (oracle_update symbol block http ∷ events) = (symbol, block, http) ∷ handled events

-- How the loop ends.
abbrev pub ending : {F Resp : Type 0} → List (Event F Resp) → Status
ending [] = waiting
ending (ctx_done ∷ events) = stopped
ending (metrics_error e ∷ events) = exited
ending (oracle_update symbol block http ∷ events) = ending events

-- The values among the results.
abbrev pub oks : {A : Type 0} → List (Result A) → List A
oks [] = []
oks (ok a ∷ rs) = a ∷ oks rs
oks (err _ ∷ rs) = oks rs

length-oks : {A : Type 0} (rs : List (Result A)) → length (oks rs) ≤ length rs
length-oks [] = omega arith
length-oks (ok a ∷ rs) = omega (arith, length-oks rs)
length-oks (err e ∷ rs) = omega (arith, length-oks rs)

num-send :
    {Sig : Type 0} (r : Result (SignedOracleResponse Sig)) (st : Running Sig)
    → (send r st).num_tasks_received ≡ st.num_tasks_received
num-send (ok resp) st = refl
num-send (err e) st = refl

sent-send :
    {Sig : Type 0} (r : Result (SignedOracleResponse Sig)) (st : Running Sig)
    (rest : List (Result (SignedOracleResponse Sig)))
    → (send r st).sent ++ oks rest ≡ st.sent ++ oks (r ∷ rest)
sent-send (ok resp) st rest = append_assoc st.sent (resp ∷ []) (oks rest)
sent-send (err e) st rest = refl

module _ {T F Resp Sig : Type 0} (lib : AbiLib T) (float : Float64 F) (sign_message : List ℕ → Sig)
    (operator_id : List ℕ) where
  abbrev pub answers : List (Request F Resp) → List (Result (SignedOracleResponse Sig))
  answers [] = []
  answers ((symbol, block, http) ∷ rest) =
      respond lib float sign_message operator_id symbol block http ∷ answers rest

  -- The loop handles the requests that come before the first cancellation or metrics error: it
  -- counts each of them and sends, in order, exactly the responses that were made without error.
  pub start_loop_lem :
      (events : List (Event F Resp)) (st : Running Sig)
      → start_loop lib float sign_message operator_id events st ≡ (
        ending events,
        record {
          num_tasks_received = st.num_tasks_received + length (handled events);
          sent = st.sent ++ oks (answers (handled events));
        },
      )
  unfolding start_loop
  start_loop_lem [] st = rw (add-zero, append-nil)
  start_loop_lem (ctx_done ∷ events) st = rw (add-zero, append-nil)
  start_loop_lem (metrics_error e ∷ events) st = rw (add-zero, append-nil)
  start_loop_lem (oracle_update symbol block http ∷ events) st =
      let r = respond lib float sign_message operator_id symbol block http in
      let st' = send r (record st { num_tasks_received = st.num_tasks_received + 1 }) in
      let rest = handled events in
      start_loop_lem events st'
      ∙ ap₂ (λ n l. (ending events, record { num_tasks_received = n; sent = l }))
          (omega (arith, num-send r (record st { num_tasks_received = st.num_tasks_received + 1 })))
          (sent-send r (record st { num_tasks_received = st.num_tasks_received + 1 })
            (answers rest))

  length-answers : (reqs : List (Request F Resp)) → length (answers reqs) ≡ length reqs
  length-answers [] = refl
  length-answers ((symbol, block, http) ∷ rest) = omega (arith, length-answers rest)

  -- Unless the registry says that the operator is registered, `Start` ends with an error, counts
  -- nothing and sends nothing.
  pub start-not_registered :
      (is_registered : Result Bool) (events : List (Event F Resp)) (st : Running Sig)
      → is_registered ≢ ok true
      → (e : GoError) × (start lib float sign_message operator_id is_registered events st
          ≡ (refused e, st))
  unfolding start
  start-not_registered (err e) events st h = (e, refl)
  start-not_registered (ok false) events st h = (not_registered, refl)
  start-not_registered (ok true) events st h = absurd (h refl)

  -- From a fresh start no more responses are sent than requests were counted.
  pub sent-le-received :
      (is_registered : Result Bool) (events : List (Event F Resp))
      → let st =
          (start lib float sign_message operator_id is_registered events
            (record { num_tasks_received = 0; sent = [] })).1 in
        length st.sent ≤ st.num_tasks_received
  unfolding start
  sent-le-received (err e) events = omega arith
  sent-le-received (ok false) events = omega arith
  sent-le-received (ok true) events =
      rw (start_loop_lem events (record { num_tasks_received = 0; sent = [] }))
        (omega (arith, length-oks (answers (handled events)), length-answers (handled events)))
