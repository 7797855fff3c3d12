-- ===== src/Aggregator/Start.antt =====
-- `Start` of aggregator/aggregator.go: the `select` loop, over the events in the order in which
-- they are taken. The endpoint's goroutines change the aggregator between two rounds.
pub mod Laws
use blockless_avs_tools.Base.{
  ℕ, List, [], ◌∷◌, Option, none, some, GoError, message, Result, Outcome, returned, panicked,
  exited, String,
}
use blockless_avs_tools.Base.Effects.{Effect}
use blockless_avs_tools.Core.Digest.{AbiLib}
use blockless_avs_tools.Chainio.Writer.{OracleTx}
use blockless_avs_tools.Chainio.Subscriber.{subscribe_to_oracle_update_responses}
use blockless_avs_tools.Aggregator.State.{SignedOracleResponse, BlsService, Aggregator}
use blockless_avs_tools.Aggregator.Rpc.{process_signed_oracle_response}
use blockless_avs_tools.Aggregator.Send.{
  BlsAggregationServiceResponse, send_aggregated_oracle_response_to_contract,
}

-- The cases of the `select`, and a call of the endpoint, with the block number that it reads, by
-- another goroutine.
pub data Event (Fp Sig : Type 0) : Type 0 where
  ctx_done : Event Fp Sig
  bls_response : BlsAggregationServiceResponse Fp → Event Fp Sig
  subscription_error : GoError → Event Fp Sig
  oracle_update : Event Fp Sig
  rpc_call : SignedOracleResponse Sig → Result ℕ → Event Fp Sig

-- `waiting`: no event is left. `crashed`: a panic, which ends the process.
pub data Status : Type 0 where
  waiting stopped : Status
  crashed : GoError → Status

abbrev pub nil_dereference : GoError
nil_dereference = message "runtime error: invalid memory address or nil pointer dereference"

pub record Running (S W : Type 0) : Type 0 where
  pub agg : Aggregator S
  pub chain : W

-- Everything outside the aggregator that it calls.
pub record Libraries (T Fp Sig S W Opts Tx Receipt Sub : Type 0) : Type 0 where
  pub abi : AbiLib T
  pub service : BlsService Sig S
  pub big_int : Fp → ℕ
  pub tx_mgr : OracleTx W Opts Tx Receipt
  pub watch_oracle_update : Effect W Sub

module _ {T Fp Sig S W Opts Tx Receipt Sub : Type 0}
    (libs : Libraries T Fp Sig S W Opts Tx Receipt Sub) where
  -- Each round evaluates `subOracleUpdates.Err()` first, whichever case is then taken: on a nil
  -- subscription that is a nil dereference.
  unfoldable pub start_loop : Option Sub → List (Event Fp Sig) → Running S W → Status × Running S W
  start_loop none events st = (crashed nil_dereference, st)
  start_loop (some sub) [] st = (waiting, st)
  start_loop (some sub) (ctx_done ∷ events) st = (stopped, st)
  start_loop (some sub) (bls_response resp ∷ events) st =
      let (outcome, chain) =
        send_aggregated_oracle_response_to_contract libs.big_int libs.tx_mgr resp st.agg st.chain in
      elim outcome [
        | returned _ ↦ start_loop (some sub) events (record st { chain = chain })
        | panicked e ↦ (crashed e, record st { chain = chain })
        | exited s ↦ (crashed (message s), record st { chain = chain })
      ]
  start_loop (some sub) (subscription_error e ∷ events) st =
      let (sub', chain) = subscribe_to_oracle_update_responses libs.watch_oracle_update st.chain in
      start_loop sub' events (record st { chain = chain })
  start_loop (some sub) (oracle_update ∷ events) st = start_loop (some sub) events st
  start_loop (some sub) (rpc_call resp block_number ∷ events) st =
      start_loop (some sub) events (record st {
        agg = (process_signed_oracle_response libs.abi libs.service resp block_number st.agg).1;
      })

  unfoldable pub start : List (Event Fp Sig) → Running S W → Status × Running S W
  unfolding start_loop
  start events st =
      let (sub, chain) = subscribe_to_oracle_update_responses libs.watch_oracle_update st.chain in
      start_loop sub events (record st { chain = chain })
