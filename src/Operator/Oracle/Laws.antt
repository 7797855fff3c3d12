-- ===== src/Operator/Oracle/Laws.antt =====
-- What an operator's price says, and what it signs.
use blockless_avs_tools.Base.{
  ℕ, ◌-◌, ◌^◌, ◌≤◌, ◌<◌, String, List, some, Result, ok, ◌≡◌, arith, u32, int64, pos, negsuc,
  >>=-eq-ok,
}
use blockless_avs_tools.Bindings.{Price}
use blockless_avs_tools.Core.Digest.{AbiLib, get_price_digest}
use blockless_avs_tools.Aggregator.State.{SignedOracleResponse}
use blockless_avs_tools.Operator.Coingecko.{
  Float64, Http, get_price_by_id, format_price_to_six_decimals,
}
use blockless_avs_tools.Operator.Oracle.{process_oracle_update_request, sign_oracle_response}

module _ {F Resp : Type 0} (float : Float64 F) (http : Http F Resp) (symbol : String) where
  -- A price is made only from a block and a price that were both read. It bears the requested
  -- symbol, the block's time modulo 2^32, and the price in millionths as a signed 64-bit number.
  pub process_oracle_update_request-ok :
      (block : Result ℕ) (p : Price)
      → process_oracle_update_request float http block symbol ≡ ok p
      → (time : ℕ) × (price : F) × (block ≡ ok time)
        × (get_price_by_id http symbol ≡ ok price)
        × (p.symbol ≡ symbol)
        × (p.timestamp ≡ u32 time)
        × (p.price ≡ some (int64 (format_price_to_six_decimals float price)))
  unfolding process_oracle_update_request
  process_oracle_update_request-ok block p h =
      let (time, b, h') = >>=-eq-ok block _ h in
      let (price, g, e) = >>=-eq-ok (get_price_by_id http symbol) _ h' in
      (time, price, b, g, ground arith, ground arith, ground arith)

  -- A price whose millionths fit 63 bits, at a block before 2106, is the price in millionths at
  -- the block's own time.
  pub process_oracle_update_request-exact :
      (time : ℕ) (price : F)
      → get_price_by_id http symbol ≡ ok price
      → format_price_to_six_decimals float price < 2 ^ 63
      → time < 2 ^ 32
      → process_oracle_update_request float http (ok time) symbol
        ≡ ok (record {
          symbol = symbol;
          price = some (pos (format_price_to_six_decimals float price));
          timestamp = time;
        })
  unfolding process_oracle_update_request
  process_oracle_update_request-exact time price h small early = ground arith

  -- From 2^63 millionths on the conversion of the uint to an int64 makes the price negative.
  pub process_oracle_update_request-negative :
      (time : ℕ) (price : F)
      → get_price_by_id http symbol ≡ ok price
      → 2 ^ 63 ≤ format_price_to_six_decimals float price
      → format_price_to_six_decimals float price < 2 ^ 64
      → (p : Price) × (n : ℕ) × (process_oracle_update_request float http (ok time) symbol ≡ ok p)
        × (p.price ≡ some (negsuc n))
  unfolding process_oracle_update_request
  process_oracle_update_request-negative time price h large fits =
      let m = format_price_to_six_decimals float price in
      (
        record { symbol = symbol; price = some (int64 m); timestamp = u32 time },
        2 ^ 64 - m - 1,
        rw h,
        ground arith,
      )

-- A signed response carries the price that was given, its signature is over that price's digest,
-- and it names the operator.
pub sign_oracle_response-ok :
    {T Sig : Type 0} (lib : AbiLib T) (sign_message : List ℕ → Sig) (operator_id : List ℕ)
    (price : Price) (resp : SignedOracleResponse Sig)
    → sign_oracle_response lib sign_message operator_id price ≡ ok resp
    → (digest : List ℕ) × (get_price_digest lib resp.price_response ≡ ok digest)
      × (resp.bls_signature ≡ sign_message digest)
      × (resp.price_response ≡ price)
      × (resp.operator_id ≡ operator_id)
unfolding sign_oracle_response
sign_oracle_response-ok lib sign_message operator_id price resp h =
    let (digest, g, e) = >>=-eq-ok (get_price_digest lib price) _ h in
    let same : resp.price_response ≡ price = ground arith in
    (digest, rw same g, ground arith, ground arith, ground arith)
