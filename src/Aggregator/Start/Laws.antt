-- ===== src/Aggregator/Start/Laws.antt =====
-- When the aggregator's main loop stops, and when it brings the process down.
use blockless_avs_tools.Base.{List, [], ◌∷◌, Option, none, some, GoError, err, ◌≡◌, ◌⊎◌, inr, arith}
use blockless_avs_tools.Chainio.Subscriber.{subscribe_to_oracle_update_responses}
use blockless_avs_tools.Aggregator.Rpc.{process_signed_oracle_response}
use blockless_avs_tools.Aggregator.Send.{send_aggregated_oracle_response_to_contract}
use blockless_avs_tools.Aggregator.Start.{
  Event, ctx_done, bls_response, subscription_error, oracle_update, rpc_call, crashed,
  nil_dereference, Running, Libraries, start_loop, start,
}

module _ {T Fp Sig S W Opts Tx Receipt Sub : Type 0}
    (libs : Libraries T Fp Sig S W Opts Tx Receipt Sub) where
  -- If the first subscription fails, the main loop dereferences nil and the process crashes,
  -- whatever would have happened then, a cancelled context included.
  pub start-failed_subscription :
      {e : GoError} {chain : W} (events : List (Event Fp Sig)) (st : Running S W)
      → libs.watch_oracle_update st.chain ≡ (err e, chain)
      → (start libs events st).0 ≡ crashed nil_dereference
  unfolding start subscribe_to_oracle_update_responses
  start-failed_subscription [] st h = ground arith
  start-failed_subscription (_ ∷ _) st h = ground arith

-- The aggregation service reports this error in one of the events.
abbrev pub ReportsError : {Fp Sig : Type 0} → GoError → List (Event Fp Sig) → Type 0
ReportsError e [] = ⊥
ReportsError e (bls_response resp ∷ events) = (resp.service_err ≡ some e) ⊎ ReportsError e events
ReportsError e (_ ∷ events) = ReportsError e events

module _ {T Fp Sig S W Opts Tx Receipt Sub : Type 0}
    (libs : Libraries T Fp Sig S W Opts Tx Receipt Sub) where
  -- The main loop crashes only from an error that the aggregation service reports, or from a
  -- subscription that could not be renewed.
  pub start_loop-crash_cause :
      (sub : Option Sub) (events : List (Event Fp Sig)) (st : Running S W) (e : GoError)
      → (start_loop libs sub events st).0 ≡ crashed e
      → ReportsError e events ⊎ (e ≡ nil_dereference)
  unfolding start_loop send_aggregated_oracle_response_to_contract
  start_loop-crash_cause none [] st e h = inr (cc)
  start_loop-crash_cause none (_ ∷ _) st e h = inr (cc)
  start_loop-crash_cause (some sub) [] st e h = cc
  start_loop-crash_cause (some sub) (ctx_done ∷ events) st e h = cc
  start_loop-crash_cause (some sub) (bls_response resp ∷ events) st e h =
      let chain =
        (send_aggregated_oracle_response_to_contract libs.big_int libs.tx_mgr resp st.agg
          st.chain).1 in
      let rest = start_loop-crash_cause (some sub) events (record st { chain = chain }) e in
      ground (arith, rest)
  start_loop-crash_cause (some sub) (subscription_error f ∷ events) st e h =
      let (sub', chain) = subscribe_to_oracle_update_responses libs.watch_oracle_update st.chain in
      start_loop-crash_cause sub' events (record st { chain = chain }) e h
  start_loop-crash_cause (some sub) (oracle_update ∷ events) st e h =
      start_loop-crash_cause (some sub) events st e h
  start_loop-crash_cause (some sub) (rpc_call resp n ∷ events) st e h =
      start_loop-crash_cause (some sub) events
        (record st { agg = (process_signed_oracle_response libs.abi libs.service resp n st.agg).1 })
        e h
