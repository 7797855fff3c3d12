-- ===== src/Chainio/Writer.antt =====
-- `SendAggregatedOracleResponse` of core/chainio/avs_writer.go.
pub mod Deployed
use blockless_avs_tools.Base.Effects.{Effect, ◌>>=◌}
use blockless_avs_tools.Bindings.{Price, OracleRequest, NonSignerStakesAndSignature}

-- `GetNoSendTxOpts` and `Send` of the SDK's `TxManager`, and `UpdateOraclePrice` of the bound
-- contract, on the state `W` of the chain.
pub record OracleTx (W Opts Tx Receipt : Type 0) : Type 0 where
  pub get_no_send_tx_opts : Effect W Opts
  pub update_oracle_price : Opts → OracleRequest → Price → NonSignerStakesAndSignature → Effect W Tx
  pub send : Tx → Effect W Receipt

module _ {W Opts Tx Receipt : Type 0} (tx_mgr : OracleTx W Opts Tx Receipt) where
  unfoldable pub send_aggregated_oracle_response :
      OracleRequest → Price → NonSignerStakesAndSignature → Effect W Receipt
  send_aggregated_oracle_response oracle_response price stakes = do
    tx_opts ← tx_mgr.get_no_send_tx_opts
    tx ← tx_mgr.update_oracle_price tx_opts oracle_response price stakes
    tx_mgr.send tx
