-- ===== src/Aggregator/Send.antt =====
-- `sendAggregatedOracleResponseToContract` of aggregator/aggregator.go.
pub mod Laws
use blockless_avs_tools.Base.{
  ℕ, List, [], Option, none, some, GoError, Result, ok, err, Outcome, returned, panicked, lookup,
  lookup_or, nat_eq, bytes_eq, map,
}
use blockless_avs_tools.Base.Effects.{Effect}
use blockless_avs_tools.Bindings.{
  Price, OracleRequest, NonSignerStakesAndSignature, zero_price, zero_oracle_request,
}
use blockless_avs_tools.Core.Points.{
  G1Point, G2Point, convert_to_bn254_g1_point, convert_to_bn254_g2_point,
}
use blockless_avs_tools.Chainio.Writer.{OracleTx, send_aggregated_oracle_response}
use blockless_avs_tools.Aggregator.State.{Aggregator}

-- `BlsAggregationServiceResponse` of the SDK.
pub record BlsAggregationServiceResponse (Fp : Type 0) : Type 0 where
  pub service_err : Option GoError
  pub task_index : ℕ
  pub task_response_digest : List ℕ
  pub non_signers_pubkeys_g1 : List (G1Point Fp)
  pub quorum_apks_g1 : List (G1Point Fp)
  pub signers_apk_g2 : G2Point Fp
  pub signers_agg_sig_g1 : G1Point Fp
  pub non_signer_quorum_bitmap_indices : List ℕ
  pub quorum_apk_indices : List ℕ
  pub total_stake_indices : List ℕ
  pub non_signer_stake_indices : List (List ℕ)

module _ {Fp : Type 0} (big_int : Fp → ℕ) where
  -- The two loops and the struct that they fill.
  unfoldable pub non_signer_stakes_and_signature :
      BlsAggregationServiceResponse Fp → NonSignerStakesAndSignature
  non_signer_stakes_and_signature resp = record {
    non_signer_quorum_bitmap_indices = resp.non_signer_quorum_bitmap_indices;
    non_signer_pubkeys = map (convert_to_bn254_g1_point big_int) resp.non_signers_pubkeys_g1;
    quorum_apks = map (convert_to_bn254_g1_point big_int) resp.quorum_apks_g1;
    apk_g2 = convert_to_bn254_g2_point big_int resp.signers_apk_g2;
    sigma = convert_to_bn254_g1_point big_int resp.signers_agg_sig_g1;
    quorum_apk_indices = resp.quorum_apk_indices;
    total_stake_indices = resp.total_stake_indices;
    non_signer_stake_indices = resp.non_signer_stake_indices;
  }

-- The section under the lock: both reads give zero values where the maps have nothing.
unfoldable pub read_task : {S : Type 0} → Aggregator S → ℕ → List ℕ → OracleRequest × Price
read_task agg i digest = (
  lookup_or digest (lookup_or i agg.oracle_responses []) zero_oracle_request,
  lookup_or i agg.prices zero_price,
)

module _ {Fp W Opts Tx Receipt S : Type 0} (big_int : Fp → ℕ)
    (tx_mgr : OracleTx W Opts Tx Receipt) where
  -- An error of the writer is logged and dropped.
  unfoldable pub send_aggregated_oracle_response_to_contract :
      BlsAggregationServiceResponse Fp → Aggregator S → W → Outcome (Unit {0}) × W
  unfolding read_task
  send_aggregated_oracle_response_to_contract resp agg w = elim resp.service_err [
    | some e ↦ (panicked e, w)
    | none ↦
        let (oracle_response, price) = read_task agg resp.task_index resp.task_response_digest in
        let sent =
          send_aggregated_oracle_response tx_mgr oracle_response price
            (non_signer_stakes_and_signature big_int resp) w in
        (returned tt, sent.1)
  ]
