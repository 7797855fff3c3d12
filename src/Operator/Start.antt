-- ===== src/Operator/Start.antt =====
-- `Start` of operator/operator.go: the registration check, and the `select` loop over the events in
-- the order in which they are taken. `numTasksReceived` is the counter of metrics/metrics.go.
pub mod Laws
use blockless_avs_tools.Base.{
  ℕ, ◌+◌, String, List, [], ◌∷◌, ◌++◌, Bool, true, false, Result, ok, err, GoError, message, ◌>>=◌,
}
use blockless_avs_tools.Core.Digest.{AbiLib}
use blockless_avs_tools.Aggregator.State.{SignedOracleResponse}
use blockless_avs_tools.Operator.Coingecko.{Float64, Http}
use blockless_avs_tools.Operator.Oracle.{process_oracle_update_request, sign_oracle_response}

-- The cases of the `select`. A request comes with the answers of the chain and of the web that its
-- handling reads.
pub data Event (F Resp : Type 0) : Type 0 where
  ctx_done : Event F Resp
  metrics_error : GoError → Event F Resp
  oracle_update : String → Result ℕ → Http F Resp → Event F Resp

-- `waiting`: no event is left. `Fatal` exits the process.
pub data Status : Type 0 where
  waiting stopped exited : Status
  refused : GoError → Status

-- The counter, and the responses given to `SendSignedOracleResponseToAggregator`, each in a
-- goroutine of its own, in order.
pub record Running (Sig : Type 0) : Type 0 where
  pub num_tasks_received : ℕ
  pub sent : List (SignedOracleResponse Sig)

abbrev pub not_registered : GoError
not_registered =
    message
      "operator is not registered. Registering operator using the operator-cli before starting operator"

-- Only a response is sent.
abbrev pub send : {Sig : Type 0} → Result (SignedOracleResponse Sig) → Running Sig → Running Sig
send (ok resp) st = record st { sent = st.sent ++ resp ∷ [] }
send (err _) st = st

module _ {T F Resp Sig : Type 0} (lib : AbiLib T) (float : Float64 F) (sign_message : List ℕ → Sig)
    (operator_id : List ℕ) where
  -- What a request gives to send; an error of either call is logged and ends its handling.
  unfoldable pub respond : String → Result ℕ → Http F Resp → Result (SignedOracleResponse Sig)
  respond symbol block http = do
    price ← process_oracle_update_request float http block symbol
    sign_oracle_response lib sign_message operator_id price

  unfoldable pub start_loop : List (Event F Resp) → Running Sig → Status × Running Sig
  start_loop [] st = (waiting, st)
  start_loop (ctx_done ∷ events) st = (stopped, st)
  start_loop (metrics_error e ∷ events) st = (exited, st)
  start_loop (oracle_update symbol block http ∷ events) st = start_loop events (
      send (respond symbol block http)
        (record st { num_tasks_received = st.num_tasks_received + 1 }))

  -- `is_registered` is the answer of `IsOperatorRegistered`.
  unfoldable pub start : Result Bool → List (Event F Resp) → Running Sig → Status × Running Sig
  start (err e) events st = (refused e, st)
  start (ok false) events st = (refused not_registered, st)
  start (ok true) events st = start_loop events st
