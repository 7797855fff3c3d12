-- ===== src/Operator/Oracle.antt =====
-- `ProcessOracleUpdateRequest` and `SignOracleResponse` of operator/operator.go. The block that
-- `BlockByNumber` gives is known by its time, a uint64.
pub mod Laws
use blockless_avs_tools.Base.{ℕ, String, List, some, Result, ok, ◌>>=◌, u32, int64}
use blockless_avs_tools.Bindings.{Price}
use blockless_avs_tools.Core.Digest.{AbiLib, get_price_digest}
use blockless_avs_tools.Aggregator.State.{SignedOracleResponse}
use blockless_avs_tools.Operator.Coingecko.{
  Float64, Http, get_price_by_id, format_price_to_six_decimals,
}

module _ {F Resp : Type 0} (float : Float64 F) (http : Http F Resp) where
  unfoldable pub process_oracle_update_request : Result ℕ → String → Result Price
  process_oracle_update_request block symbol = do
    block_timestamp ← block
    price ← get_price_by_id http symbol
    ok (record {
      symbol = symbol;
      price = some (int64 (format_price_to_six_decimals float price));
      timestamp = u32 block_timestamp;
    })

-- `SignMessage` of the operator's key pair is the parameter `sign_message`.
unfoldable pub sign_oracle_response :
    {T Sig : Type 0}
    → AbiLib T
    → (List ℕ → Sig)
    → List ℕ
    → Price
    → Result (SignedOracleResponse Sig)
sign_oracle_response lib sign_message operator_id price = do
  price_hash ← get_price_digest lib price
  ok (record {
    price_response = price;
    bls_signature = sign_message price_hash;
    operator_id = operator_id;
  })
